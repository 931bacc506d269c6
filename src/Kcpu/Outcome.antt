-- ===== src/Kcpu/Outcome.antt =====
-- What the answer of `wait_cqs64` means for the state of the queue.
use pan_vk_kbase.Prelude.{
  ℕ, zero, suc, ◌<◌, ◌≡◌, ◌≢◌, ◌⊎◌, inl, refl, Bool, true, false, ◌&&◌, Option, none, some, ◌∷◌,
  ◌==◌, ◌%◌, arith,
}
use pan_vk_kbase.Kernel.{Kernel, Log, Call, own_call, fail, eintr}
use pan_vk_kbase.Csf.{ppoll_call}
use pan_vk_kbase.Device.{Device, Kcpu}
use pan_vk_kbase.Kcpu.{
  Poll, satisfied, timed_out, failed, out_of_retries, poll_fence, disable, poll_new, enqueue, reap,
  wait_pending, wait_state, wait_locked, wait_if, wait_cqs64,
}
use pan_vk_kbase.Kcpu.Held.{IsKcpu}

-- the meaning of every answer at once, for the proofs
record Meanings (q : Kcpu) (addr target : ℕ) (r : Poll) (q' : Kcpu) : Type 0 where
  pub sound : IsKcpu q'
  pub on_satisfied : r ≡ satisfied → (q'.pending ≡ false) × (q'.valid ≡ true) × (q'.fence_fd ≡ none)
  pub on_timed_out :
      r ≡ timed_out → (q'.pending ≡ true) × (q'.addr ≡ addr) × (q'.target_minus_one ≡ target)
  pub on_failed :
      r ≡ failed → (q' ≡ q) ⊎ ((q'.valid ≡ false) × (q'.pending ≡ false) × (q'.fence_fd ≡ none))

abbrev MeaningsRun : Kcpu → ℕ → ℕ → (Poll × Kcpu) × Log → Type 0
MeaningsRun q addr target ((r, q'), l) = Meanings q addr target r q'

module _ (k : Kernel) (retries addr target t : ℕ) where
  Meanings-disable : (q : Kcpu) (l : Log) → MeaningsRun q addr target (disable q k l)
  unfolding disable
  Meanings-disable q l = record {
    sound = ground arith;
    on_satisfied = λ h. ground arith;
    on_timed_out = λ h. ground arith;
    on_failed = λ h. ground arith;
  }

  Meanings-poll_new :
      (q : Kcpu) (n : ℕ) (l : Log)
      → q.valid ≡ true
      → MeaningsRun q addr target (poll_new retries q addr target t n k l)
  unfolding poll_new disable
  Meanings-poll_new q n l v = record {
    sound = ground arith;
    on_satisfied = λ h. ground arith;
    on_timed_out = λ h. ground arith;
    on_failed = λ h. ground arith;
  }

  Meanings-enqueue :
      (q : Kcpu) (l : Log)
      → q.valid ≡ true
      → MeaningsRun q addr target (enqueue retries q addr target t k l)
  unfolding enqueue
  Meanings-enqueue q l v = record {
    sound = ground arith;
    on_satisfied = λ h. ground arith;
    on_timed_out = λ h. ground arith;
    on_failed = λ h. ground arith;
  }

  Meanings-reap :
      (q : Kcpu) (n : ℕ) (l : Log)
      → IsKcpu q
      → q.valid ≡ true
      → q.pending ≡ true
      → MeaningsRun q addr target (reap retries q addr target t n k l)
  unfolding reap
  Meanings-reap q n l i v p = record {
    sound = ground arith;
    on_satisfied = λ h. ground arith;
    on_timed_out = λ h. ground arith;
    on_failed = λ h. ground arith;
  }

  Meanings-wait_pending :
      (f : Option ℕ) (q : Kcpu) (l : Log)
      → q.fence_fd ≡ f
      → IsKcpu q
      → q.valid ≡ true
      → q.pending ≡ true
      → MeaningsRun q addr target (wait_pending f retries q addr target t k l)
  unfolding wait_pending
  Meanings-wait_pending none q l e i v p = absurd (i.fenced p e)
  Meanings-wait_pending (some n) q l e i v p = Meanings-reap q n l i v p

  Meanings-unchanged : (q : Kcpu) → IsKcpu q → Meanings q addr target failed q
  Meanings-unchanged q i = record {
    sound = i;
    on_satisfied = λ h. cc;
    on_timed_out = λ h. cc;
    on_failed = λ h. inl refl;
  }

  Meanings-wait_state :
      (valid pending : Bool) (q : Kcpu) (l : Log)
      → q.valid ≡ valid
      → q.pending ≡ pending
      → IsKcpu q
      → MeaningsRun q addr target (wait_state valid pending retries q addr target t k l)
  unfolding wait_state
  Meanings-wait_state true true q l v p i = Meanings-wait_pending q.fence_fd q l refl i v p
  Meanings-wait_state true false q l v p i = Meanings-enqueue q l v
  Meanings-wait_state false pending q l v p i = Meanings-unchanged q i

Meanings-wait_if :
    (allowed : Bool) (retries : ℕ) (d : Device) (addr target t : ℕ) (k : Kernel) (l : Log)
    → IsKcpu d.kcpu
    → let (r, d') = (wait_if allowed retries d addr target t k l).0 in
      Meanings d.kcpu addr target r d'.kcpu
unfolding wait_if wait_locked
Meanings-wait_if false retries d addr target t k l i =
    Meanings-unchanged k retries addr target t d.kcpu i
Meanings-wait_if true retries d addr target t k l i =
    Meanings-wait_state k retries addr target t d.kcpu.valid d.kcpu.pending d.kcpu
      (own_call Call.lock k l).1 refl refl i

-- After 1 nothing is pending and the queue lives. After 0 this very wait is pending, so that a
-- further call resumes it. After -1 the queue is as it was, or is gone with its fence.
abbrev pub Means : Kcpu → (addr target : ℕ) → Poll → Kcpu → Type 0
Means q addr target satisfied q' =
    IsKcpu q' × (q'.pending ≡ false) × (q'.valid ≡ true) × (q'.fence_fd ≡ none)
Means q addr target timed_out q' =
    IsKcpu q' × (q'.pending ≡ true) × (q'.addr ≡ addr) × (q'.target_minus_one ≡ target)
Means q addr target failed q' =
    IsKcpu q' × ((q' ≡ q) ⊎ ((q'.valid ≡ false) × (q'.pending ≡ false) × (q'.fence_fd ≡ none)))
Means q addr target out_of_retries q' = IsKcpu q'

Means-Meanings :
    (q : Kcpu) (addr target : ℕ) (r : Poll) (q' : Kcpu)
    → Meanings q addr target r q'
    → Means q addr target r q'
Means-Meanings q addr target satisfied q' m =
    let a = m.on_satisfied refl in (m.sound, a.0, a.1, a.2)
Means-Meanings q addr target timed_out q' m =
    let a = m.on_timed_out refl in (m.sound, a.0, a.1, a.2)
Means-Meanings q addr target failed q' m = (m.sound, m.on_failed refl)
Means-Meanings q addr target out_of_retries q' m = m.sound

-- What each answer of kbase_kmod_csf_wait_cqs64 from a consistent queue says of the queue after
-- it: satisfied and idle, this very wait pending, or as before or gone; and its state stays
-- consistent.
pub wait_cqs64-Means :
    (retries : ℕ) (d : Device) (addr target t : ℕ) (k : Kernel) (l : Log)
    → IsKcpu d.kcpu
    → let (r, d') = (wait_cqs64 retries d addr target t k l).0 in Means d.kcpu addr target r d'.kcpu
unfolding wait_cqs64
wait_cqs64-Means retries d addr target t k l i =
    Means-Meanings d.kcpu addr target _ _
      (Meanings-wait_if (d.is_csf && (addr % 16 == 0)) retries d addr target t k l i)

-- the log after `n` interrupted polls
abbrev pub polls : Kernel → Call → Log → ℕ → Log
polls k c l zero = l
polls k c l (suc n) = polls k c ((c, k l c) ∷ l) n

-- kbase_kcpu_poll_fence answers if the kernel interrupts the poll fewer times than there are
-- retries.
poll_fence-returns :
    (n fd t : ℕ) (k : Kernel) (l : Log) (r : ℕ)
    → r < n
    → k (polls k (ppoll_call fd t) l r) (ppoll_call fd t) ≢ fail eintr
    → (poll_fence n fd t k l).0 ≢ out_of_retries
unfolding poll_fence
poll_fence-returns zero fd t k l r h ne = absurd (omega arith)
poll_fence-returns (suc n) fd t k l zero h ne = ground arith
poll_fence-returns (suc n) fd t k l (suc r) h ne =
    let c = ppoll_call fd t in ground (arith, poll_fence-returns n fd t k ((c, k l c) ∷ l) r)
