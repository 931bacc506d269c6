-- ===== src/GpuProps/Encode.antt =====
-- The blob's format, stated by its printer: header `key << 2 | size_code`, then the value.
use pan_vk_kbase.Prelude.{
  ℕ, zero, suc, ◌+◌, ◌*◌, ◌/◌, ◌%◌, ◌^◌, ◌<◌, ◌≡◌, refl, ap, List, [], ◌∷◌, ◌++◌, arith, length,
}
use native.Mathlib.Nat.{pow-suc}
use pan_vk_kbase.GpuProps.{le_value, val_size}

pub record Entry : Type 0 where
  pub key : ℕ
  pub size_code : ℕ
  pub value : ℕ

pub record IsEntry (e : Entry) : Type 0 where
  pub key_fits : e.key < 2 ^ 30
  pub code_fits : e.size_code < 4
  pub value_fits : e.value < 256 ^ val_size e.size_code

abbrev pub AllEntries : List Entry → Type 0
AllEntries [] = Unit
AllEntries (e ∷ es) = IsEntry e × AllEntries es

-- `n` bytes, lowest first
abbrev pub le_bytes : ℕ → ℕ → List ℕ
le_bytes zero v = []
le_bytes (suc n) v = (v % 256) ∷ le_bytes n (v / 256)

unfoldable pub encode_entry : Entry → List ℕ
encode_entry e = le_bytes 4 (e.key * 4 + e.size_code) ++ le_bytes (val_size e.size_code) e.value

unfoldable pub encode : List Entry → List ℕ
encode [] = []
encode (e ∷ es) = encode_entry e ++ encode es

pub length-le_bytes : (n v : ℕ) → length (le_bytes n v) ≡ n
length-le_bytes zero v = refl
length-le_bytes (suc n) v = ap suc (length-le_bytes n (v / 256))

pub le_value-le_bytes : (n v : ℕ) → v < 256 ^ n → le_value (le_bytes n v) ≡ v
le_value-le_bytes zero v h = omega arith
le_value-le_bytes (suc n) v h =
    let small : v / 256 < 256 ^ n = omega (arith, pow-suc 256 n) in
    omega (arith, le_value-le_bytes n (v / 256) small)
