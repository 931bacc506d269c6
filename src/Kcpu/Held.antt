-- ===== src/Kcpu/Held.antt =====
-- What the kernel CPU queue holds: every path of the wait leaves exactly the fence and the queue
-- that its new state names, and unlocks.
use pan_vk_kbase.Prelude.{
  ℕ, zero, suc, ◌+◌, ◌≤◌, ◌≡◌, ◌≢◌, refl, true, false, Option, none, some, ◌∷◌, arith,
}
use pan_vk_kbase.Kernel.{Kernel, Log, Call, own_call}
use pan_vk_kbase.Kernel.Ledger.{Kind, held, one, fd, kcpu}
use pan_vk_kbase.Device.{Device, Kcpu}
use pan_vk_kbase.Kcpu.{
  Poll, poll_fence, disable, poll_new, enqueue, poll_again, reap, wait_pending, wait_locked,
  wait_cqs64, retire,
}

abbrev pub owned : Kcpu → Kind → ℕ → ℕ
owned q κ x =
    (elim q.fence_fd [ none ↦ 0 | some n ↦ one fd n κ x ])
    + (elim q.valid [ true ↦ one kcpu q.id κ x | false ↦ 0 ])

-- the fence is there exactly while a wait is pending
pub record IsKcpu (q : Kcpu) : Type 0 where
  pub idle : q.pending ≡ false → q.fence_fd ≡ none
  pub busy : q.pending ≡ true → q.valid ≡ true
  pub fenced : q.pending ≡ true → q.fence_fd ≢ none

held-poll_fence :
    (n f t : ℕ) (k : Kernel) (l : Log) (κ : Kind) (x : ℕ)
    → held (poll_fence n f t k l).1 κ x ≡ held l κ x
unfolding poll_fence
held-poll_fence zero f t k l κ x = refl
held-poll_fence (suc n) f t k l κ x = grind (arith, held-poll_fence n f t k)

module _ (k : Kernel) (κ : Kind) (x : ℕ) where
  -- the new state is paid for by what the old one held
  abbrev Pays : Kcpu → Log → (Poll × Kcpu) × Log → Type 0
  Pays q l ((r, q'), l') = held l' κ x + owned q κ x ≡ held l κ x + owned q' κ x

  held-disable : (q : Kcpu) (l : Log) → owned q κ x ≤ held l κ x → Pays q l (disable q k l)
  unfolding disable
  held-disable q l h = ground arith

  held-poll_new :
      (retries : ℕ) (q : Kcpu) (addr target t n : ℕ) (l : Log)
      → q.fence_fd ≡ none
      → owned q κ x + one fd n κ x ≤ held l κ x
      → held (poll_new retries q addr target t n k l).1 κ x + (owned q κ x + one fd n κ x)
        ≡ held l κ x + owned (poll_new retries q addr target t n k l).0.1 κ x
  unfolding poll_new
  held-poll_new retries q addr target t n l e h =
      ground (arith, held-poll_fence retries n t k l κ x)

  held-enqueue :
      (retries : ℕ) (q : Kcpu) (addr target t : ℕ) (l : Log)
      → q.fence_fd ≡ none
      → owned q κ x ≤ held l κ x
      → held (enqueue retries q addr target t k l).1 κ x + owned q κ x
        ≡ held l κ x + owned (enqueue retries q addr target t k l).0.1 κ x
  unfolding enqueue
  held-enqueue retries q addr target t l e h = grind (arith, held-disable, held-poll_new)

  held-poll_again :
      (retries : ℕ) (q : Kcpu) (t n : ℕ) (l : Log)
      → q.fence_fd ≡ some n
      → owned q κ x ≤ held l κ x
      → held (poll_again retries q t n k l).1 κ x + owned q κ x
        ≡ held l κ x + owned (poll_again retries q t n k l).0.1 κ x
  unfolding poll_again
  held-poll_again retries q t n l e h = ground (arith, held-poll_fence retries n t k l κ x)

  held-reap :
      (retries : ℕ) (q : Kcpu) (addr target t n : ℕ) (l : Log)
      → q.fence_fd ≡ some n
      → owned q κ x ≤ held l κ x
      → held (reap retries q addr target t n k l).1 κ x + owned q κ x
        ≡ held l κ x + owned (reap retries q addr target t n k l).0.1 κ x
  unfolding reap
  held-reap retries q addr target t n l e h =
      let polled = (poll_fence retries n 0 k l).1 in
      let closed = (Call.close n, k polled (Call.close n)) ∷ polled in
      ground (
        arith,
        held-poll_fence retries n 0 k l κ x,
        held-poll_again retries q t n polled e,
        held-disable q polled,
        held-enqueue retries (retire q) addr target t closed refl,
      )

  held-wait_pending :
      (f : Option ℕ) (retries : ℕ) (q : Kcpu) (addr target t : ℕ) (l : Log)
      → q.fence_fd ≡ f
      → owned q κ x ≤ held l κ x
      → held (wait_pending f retries q addr target t k l).1 κ x + owned q κ x
        ≡ held l κ x + owned (wait_pending f retries q addr target t k l).0.1 κ x
  unfolding wait_pending
  held-wait_pending none retries q addr target t l e h = refl
  held-wait_pending (some n) retries q addr target t l e h =
      held-reap retries q addr target t n l e h

  held-wait_locked :
      (retries : ℕ) (q : Kcpu) (addr target t : ℕ) (l : Log)
      → IsKcpu q
      → owned q κ x ≤ held l κ x
      → held (wait_locked retries q addr target t k l).1 κ x + owned q κ x
        ≡ held l κ x + owned (wait_locked retries q addr target t k l).0.1 κ x
  unfolding wait_locked
  held-wait_locked retries q addr target t l v h = ground (
    arith,
    held-wait_pending q.fence_fd retries q addr target t l refl h,
    held-enqueue retries q addr target t l,
  )

-- On every path of kbase_kmod_csf_wait_cqs64 from a consistent queue whose fence and kernel queue
-- are held, the process holds what it held, less what the queue had before, plus what it has
-- after; the lock is free again.
pub held-wait_cqs64 :
    (retries : ℕ) (d : Device) (addr target t : ℕ) (k : Kernel) (l : Log) (κ : Kind) (x : ℕ)
    → IsKcpu d.kcpu
    → owned d.kcpu κ x ≤ held l κ x
    → held (wait_cqs64 retries d addr target t k l).1 κ x + owned d.kcpu κ x
      ≡ held l κ x + owned (wait_cqs64 retries d addr target t k l).0.1.kcpu κ x
unfolding wait_cqs64
held-wait_cqs64 retries d addr target t k l κ x v h =
    let locked = (own_call Call.lock k l).1 in
    ground (arith, held-wait_locked k κ x retries d.kcpu addr target t locked v)
