-- ===== src/Syncobj/Wait.antt =====
-- The wait ends within a second, and reports success however it ends.
use pan_vk_kbase.Prelude.{
  ℕ, zero, suc, ◌+◌, ◌*◌, ◌≤◌, ◌<◌, ◌≡◌, refl, ap, ◌⊎◌, inl, inr, Bool, some, arith, ltb, ◌==◌,
  Bool-cases, true, false, not, ◌&&◌,
}
use pan_vk_kbase.Syncobj.{Timeout, timeout_ns, wait_loop, returned, syncobj_wait}

timeout_ns-le : (t : Timeout) → timeout_ns t ≤ 1000000000
unfolding timeout_ns
timeout_ns-le t = ground arith

-- what a loop that began at round `n` ends with
abbrev Ends : (ℕ → ℕ) → (n t m : ℕ) → Type 0
Ends word n t m =
    (n ≤ m) × ((word m ≡ 0) ⊎ (t ≤ m * 1000000)) × ((m ≡ n) ⊎ (m * 1000000 < t + 1000000))

abbrev goes_on : (ℕ → ℕ) → (n t : ℕ) → Bool
goes_on word n t = not (word n == 0) && ltb (n * 1000000) t

stops : (word : ℕ → ℕ) (n t : ℕ) → goes_on word n t ≡ false → (word n ≡ 0) ⊎ (t ≤ n * 1000000)
stops word n t h = ground arith

before : (word : ℕ → ℕ) (n t : ℕ) → goes_on word n t ≡ true → n * 1000000 < t
before word n t h = ground arith

next_elapsed : (n : ℕ) → n * 1000000 + 1000000 ≡ suc n * 1000000
next_elapsed n = omega arith

wait_loop-Ends :
    (r : ℕ) (word : ℕ → ℕ) (n t : ℕ)
    → t ≤ (n + r) * 1000000
    → (m : ℕ) × (wait_loop (suc r) word n (n * 1000000) t ≡ some m) × Ends word n t m
unfolding wait_loop
wait_loop-Ends zero word n t h = elim (Bool-cases (goes_on word n t)) [
  | inr stop ↦ (n, rw stop refl, (omega arith, stops word n t stop, inl refl))
  | inl go ↦ absurd (omega (arith, before word n t go))
]
wait_loop-Ends (suc r) word n t h = elim (Bool-cases (goes_on word n t)) [
  | inr stop ↦ (n, rw stop refl, (omega arith, stops word n t stop, inl refl))
  | inl go ↦
      let (m, e, (a, b, c)) = wait_loop-Ends r word (suc n) t (omega arith) in
      (m, rw (go, next_elapsed n) e, (omega arith, b, inr (omega (arith, before word n t go))))
]

-- kbase_drm_syncobj_wait ends on every timeout and whatever the word reads, after at most a
-- thousand rounds, and always returns 0, be it that the word read zero or that the time was over.
pub syncobj_wait-returns :
    (word : ℕ → ℕ) (t : Timeout)
    → (n : ℕ) × (syncobj_wait (some word) t ≡ some (0, n))
      × (n ≤ 1000)
      × ((word n ≡ 0) ⊎ (timeout_ns t ≤ n * 1000000))
unfolding syncobj_wait
syncobj_wait-returns word t =
    let (m, e, (a, b, c)) =
      wait_loop-Ends 1000 word 0 (timeout_ns t) (omega (arith, timeout_ns-le t)) in
    (m, ap returned e, omega (arith, timeout_ns-le t), b)
