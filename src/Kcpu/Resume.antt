-- ===== src/Kcpu/Resume.antt =====
-- A wait that was left pending is resumed, not queued once more.
use pan_vk_kbase.Prelude.{
  ℕ, zero, suc, ◌+◌, ◌≡◌, refl, Bool, true, false, Option, none, some, [], ◌∷◌, ◌&&◌, ◌==◌, ◌%◌,
  arith,
}
use pan_vk_kbase.Kernel.{Kernel, Log, Call, own_call}
use pan_vk_kbase.Csf.{ppoll_call}
use pan_vk_kbase.Device.{Device, Kcpu}
use pan_vk_kbase.Kcpu.{
  poll_fence, disable, poll_again, reap, wait_pending, wait_state, wait_locked, wait_if, wait_cqs64,
  matches,
}

abbrev is_enqueue : Call → ℕ
is_enqueue (Call.kcpu_enqueue_wait i a v) = 1
is_enqueue (Call.kcpu_enqueue_fence i) = 1
is_enqueue _ = 0

-- how many commands the log queues
abbrev pub enqueues : Log → ℕ
enqueues [] = 0
enqueues ((c, r) ∷ l) = is_enqueue c + enqueues l

enqueues-poll_fence :
    (n f t : ℕ) (k : Kernel) (l : Log) → enqueues (poll_fence n f t k l).1 ≡ enqueues l
unfolding poll_fence
enqueues-poll_fence zero f t k l = refl
enqueues-poll_fence (suc n) f t k l =
    let c = ppoll_call f t in ground (arith, enqueues-poll_fence n f t k ((c, k l c) ∷ l))

module _ (retries : ℕ) (q : Kcpu) (t : ℕ) (k : Kernel) where
  enqueues-disable : (l : Log) → enqueues (disable q k l).1 ≡ enqueues l
  unfolding disable
  enqueues-disable l = ground arith

  enqueues-poll_again : (n : ℕ) (l : Log) → enqueues (poll_again retries q t n k l).1 ≡ enqueues l
  unfolding poll_again
  enqueues-poll_again n l = ground (arith, enqueues-poll_fence retries n t k l)

  matches_self : matches q q.addr q.target_minus_one ≡ true
  matches_self = ground arith

  enqueues-reap :
      (n : ℕ) (l : Log) → enqueues (reap retries q q.addr q.target_minus_one t n k l).1 ≡ enqueues l
  unfolding reap
  enqueues-reap n l =
      let polled = (poll_fence retries n 0 k l).1 in
      ground (
        arith,
        matches_self,
        enqueues-poll_fence retries n 0 k l,
        enqueues-poll_again n polled,
        enqueues-disable polled,
      )

  enqueues-wait_pending :
      (f : Option ℕ) (l : Log)
      → enqueues (wait_pending f retries q q.addr q.target_minus_one t k l).1 ≡ enqueues l
  unfolding wait_pending
  enqueues-wait_pending none l = refl
  enqueues-wait_pending (some n) l = enqueues-reap n l

  enqueues-wait_state :
      (valid pending : Bool) (l : Log)
      → pending ≡ true
      → enqueues (wait_state valid pending retries q q.addr q.target_minus_one t k l).1 ≡ enqueues l
  unfolding wait_state
  enqueues-wait_state true true l p = enqueues-wait_pending q.fence_fd l
  enqueues-wait_state true false l p = absurd (ground arith)
  enqueues-wait_state false pending l p = refl

enqueues-wait_if :
    (allowed : Bool) (retries : ℕ) (d : Device) (t : ℕ) (k : Kernel) (l : Log)
    → d.kcpu.pending ≡ true
    → enqueues (wait_if allowed retries d d.kcpu.addr d.kcpu.target_minus_one t k l).1 ≡ enqueues l
unfolding wait_if wait_locked
enqueues-wait_if false retries d t k l p = refl
enqueues-wait_if true retries d t k l p =
    let locked = (own_call Call.lock k l).1 in
    omega (arith, enqueues-wait_state retries d.kcpu t k d.kcpu.valid d.kcpu.pending locked p)

-- A wait for the very value that is already pending queues no command, whatever it answers.
enqueues-wait_cqs64 :
    (retries : ℕ) (d : Device) (t : ℕ) (k : Kernel) (l : Log)
    → d.kcpu.pending ≡ true
    → enqueues (wait_cqs64 retries d d.kcpu.addr d.kcpu.target_minus_one t k l).1 ≡ enqueues l
unfolding wait_cqs64
enqueues-wait_cqs64 retries d t k l p =
    enqueues-wait_if (d.is_csf && (d.kcpu.addr % 16 == 0)) retries d t k l p
