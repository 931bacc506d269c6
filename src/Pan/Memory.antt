-- ===== src/Pan/Memory.antt =====
-- Reading back what was copied into the ring.
use pan_vk_kbase.Prelude.{
  ℕ, zero, suc, ◌+◌, ◌≤◌, ◌<◌, ◌≡◌, refl, ap, List, [], ◌∷◌, ◌++◌, arith, length,
}
use pan_vk_kbase.Pan.{write_at}

-- `n` bytes from an offset on
abbrev pub read_from : (ℕ → ℕ) → (from n : ℕ) → List ℕ
read_from f a zero = []
read_from f a (suc n) = f a ∷ read_from f (suc a) n

write_at-below : (at : ℕ) (bs : List ℕ) (f : ℕ → ℕ) (i : ℕ) → i < at → write_at at bs f i ≡ f i
unfolding write_at
write_at-below at [] f i h = refl
write_at-below at (b ∷ bs) f i h = ground (arith, write_at-below (suc at) bs f i (omega arith))

write_at-above :
    (at b : ℕ) (bs : List ℕ) (f : ℕ → ℕ) (i : ℕ)
    → at < i
    → write_at at (b ∷ bs) f i ≡ write_at (suc at) bs f i
unfolding write_at
write_at-above at b bs f i h = ground arith

write_at-here : (at b : ℕ) (bs : List ℕ) (f : ℕ → ℕ) → write_at at (b ∷ bs) f at ≡ b
unfolding write_at
write_at-here at b bs f = ground arith

read_from-write_at_below :
    (at : ℕ) (bs : List ℕ) (f : ℕ → ℕ) (a n : ℕ)
    → a + n ≤ at
    → read_from (write_at at bs f) a n ≡ read_from f a n
read_from-write_at_below at bs f a zero h = refl
read_from-write_at_below at bs f a (suc n) h =
    rw
      (
        write_at-below at bs f a (omega arith),
        read_from-write_at_below at bs f (suc a) n (omega arith),
      )
      refl

read_from-write_at_above :
    (at b : ℕ) (bs : List ℕ) (f : ℕ → ℕ) (a n : ℕ)
    → at < a
    → read_from (write_at at (b ∷ bs) f) a n ≡ read_from (write_at (suc at) bs f) a n
read_from-write_at_above at b bs f a zero h = refl
read_from-write_at_above at b bs f a (suc n) h =
    rw (write_at-above at b bs f a h, read_from-write_at_above at b bs f (suc a) n (omega arith))
      refl

read_from-write_at :
    (at : ℕ) (bs : List ℕ) (f : ℕ → ℕ) → read_from (write_at at bs f) at (length bs) ≡ bs
read_from-write_at at [] f = refl
read_from-write_at at (b ∷ bs) f =
    rw
      (
        write_at-here at b bs f,
        read_from-write_at_above at b bs f (suc at) (length bs) (omega arith),
        read_from-write_at (suc at) bs f,
      )
      refl

zero_add : (n : ℕ) → 0 + n ≡ n
zero_add n = omega arith

add_zero : (n : ℕ) → n + 0 ≡ n
add_zero n = omega arith

suc_add : (m n : ℕ) → suc m + n ≡ suc (m + n)
suc_add m n = omega arith

add_suc : (m n : ℕ) → m + suc n ≡ suc m + n
add_suc m n = omega arith

read_from-add :
    (f : ℕ → ℕ) (a m n : ℕ) → read_from f a (m + n) ≡ read_from f a m ++ read_from f (a + m) n
read_from-add f a zero n = rw (zero_add n, add_zero a) refl
read_from-add f a (suc m) n =
    rw (suc_add m n, add_suc a m) (ap (λ t. f a ∷ t) (read_from-add f (suc a) m n))

-- A copy behind the first `at` bytes appends to what is read from the start.
pub read_from-append :
    (at : ℕ) (bs : List ℕ) (f : ℕ → ℕ)
    → read_from (write_at at bs f) 0 (at + length bs) ≡ read_from f 0 at ++ bs
read_from-append at bs f =
    rw
      (
        read_from-add (write_at at bs f) 0 at (length bs),
        read_from-write_at_below at bs f 0 at (omega arith),
        zero_add at,
        read_from-write_at at bs f,
      )
      refl
