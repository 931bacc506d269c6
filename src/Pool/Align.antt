-- ===== src/Pool/Align.antt =====
-- Rounding up to an alignment.
use pan_vk_kbase.Prelude.{ℕ, ◌+◌, ◌-◌, ◌*◌, ◌/◌, ◌%◌, ◌^◌, ◌≡◌, ◌<◌, ◌≤◌, arith}
use native.Mathlib.Nat.{div-mul-le_self, lt-div-mul-add, mod-eq_of_lt, mul-mod_left}
use pan_vk_kbase.Pool.{align_pot}

round-bounds : (n a : ℕ) → 0 < a → (n / a * a ≤ n) × (n < n / a * a + a) × (n / a * a % a ≡ 0)
round-bounds n a h = (div-mul-le_self n a, lt-div-mul-add h, mul-mod_left (n / a) a)

-- Where it does not run over the width, the result is the least multiple that is not below.
pub align_pot-bounds :
    (w x a : ℕ)
    → 0 < a
    → x + (a - 1) < 2 ^ w
    → (x ≤ align_pot w x a) × (align_pot w x a < x + a) × (align_pot w x a % a ≡ 0)
align_pot-bounds w x a h small =
    let n = x + (a - 1) in
    let m : n % 2 ^ w ≡ n = mod-eq_of_lt small in
    let (lo, hi, e) = round-bounds n a h in rw m (omega arith, omega arith, e)
