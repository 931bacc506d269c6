-- ===== src/Kcpu.antt =====
-- The kernel CPU queue of kbase_kmod.c: `kbase_kcpu_poll_fence` and `kbase_kmod_csf_wait_cqs64`, a
-- wait that one caller at a time may leave queued across several time slices.
pub mod Held
pub mod Outcome
pub mod Resume
pub mod Tests
use pan_vk_kbase.Prelude.{
  ℕ, zero, suc, ◌+◌, ◌/◌, ◌%◌, ◌^◌, Bool, true, false, ◌&&◌, ◌||◌, not, Option, none, some, ◌==◌,
  if◌then◌else◌,
}
use pan_vk_kbase.Kernel
use pan_vk_kbase.Kernel.{Call, eintr, ok, fail, M, call, own_call, pure, ◌>>=◌, ◌>>◌}
use pan_vk_kbase.Device.{Device, Kcpu, close_opt}
use pan_vk_kbase.Csf.{ppoll_call}

-- 1, 0 and -1 of the code, and the end of the retries
pub data Poll : Type 0 where
  satisfied timed_out failed out_of_retries : Poll

-- kbase_kcpu_poll_fence, with the rounds left for a poll that signals interrupt
pub poll_fence : (retries fd timeout_ns : ℕ) → M Poll
poll_fence zero fd t = pure out_of_retries
poll_fence (suc n) fd t =
    let retry = poll_fence n fd t in
    call (ppoll_call fd t) >>= λ r. elim r [
      | fail e ↦ elim e [ eintr ↦ retry | other_errno ↦ pure failed ]
      | ok o ↦ pure (
          if o.value == 0
          then timed_out
          else if not (o.second == 0) || not (o.third == 0)
          then satisfied
          else failed)
    ]

abbrev pub retire : Kcpu → Kcpu
retire q = record q { pending = false; fence_fd = none }

-- the label `disable`
pub disable : Kcpu → M (Poll × Kcpu)
disable q = do
  close_opt q.fence_fd
  (elim q.valid [ true ↦ call (Call.kcpu_delete q.id) >> pure tt | false ↦ pure tt ])
  pure (failed, record q { pending = false; fence_fd = none; valid = false })

abbrev pub started : Kcpu → (addr target fence_fd : ℕ) → Kcpu
started q addr target n = record q {
  pending = true;
  addr = addr;
  target_minus_one = target;
  fence_fd = some n;
}

-- the poll of a fence that was just made
poll_new : (retries : ℕ) → Kcpu → (addr target timeout_ns fence_fd : ℕ) → M (Poll × Kcpu)
unfolding poll_fence disable
poll_new retries q addr target t n = do
  r ← poll_fence retries n t
  elim r [
    | satisfied ↦ do call (Call.close n); pure (satisfied, retire (started q addr target n))
    | failed ↦ disable (started q addr target n)
    | timed_out ↦ pure (timed_out, started q addr target n)
    | out_of_retries ↦ pure (out_of_retries, started q addr target n)
  ]

-- A wait and a fence behind it, by one request each.
enqueue : (retries : ℕ) → Kcpu → (addr target timeout_ns : ℕ) → M (Poll × Kcpu)
unfolding poll_new disable
enqueue retries q addr target t = do
  w ← call (Call.kcpu_enqueue_wait q.id addr target)
  elim w [
    | fail e ↦ disable q
    | ok _ ↦ do
      f ← call (Call.kcpu_enqueue_fence q.id)
      elim f [
        | fail e ↦ disable q
        | ok o ↦ elim o.fd [ none ↦ disable q | some n ↦ poll_new retries q addr target t n ]
      ]
  ]

abbrev pub matches : Kcpu → (addr target : ℕ) → Bool
matches q addr target = (q.addr == addr) && (q.target_minus_one == target)

-- the second poll, of a wait that this caller had left
poll_again : (retries : ℕ) → Kcpu → (timeout_ns fence_fd : ℕ) → M (Poll × Kcpu)
unfolding poll_fence
poll_again retries q t n = do
  r ← poll_fence retries n t
  elim r [
    | satisfied ↦ do call (Call.close n); pure (satisfied, retire q)
    | other ↦ pure (other, q)
  ]

-- an earlier wait that is pending, with its fence
reap : (retries : ℕ) → Kcpu → (addr target timeout_ns fence_fd : ℕ) → M (Poll × Kcpu)
unfolding poll_fence poll_again enqueue disable
reap retries q addr target t n = do
  r ← poll_fence retries n 0
  elim r [
    | satisfied ↦ do
      call (Call.close n)
      (elim (matches q addr target) [
        | true ↦ pure (satisfied, retire q)
        | false ↦ enqueue retries (retire q) addr target t
      ])
    | failed ↦ disable q
    | timed_out ↦ elim (matches q addr target) [
      | true ↦ poll_again retries q t n
      | false ↦ pure (failed, q)
    ]
    | out_of_retries ↦ pure (out_of_retries, q)
  ]

-- what the lock protects. A pending wait has its fence: a poll of descriptor -1 would time out.
wait_pending :
    (fence_fd : Option ℕ) → (retries : ℕ) → Kcpu → (addr target timeout_ns : ℕ) → M (Poll × Kcpu)
unfolding reap
wait_pending (some n) retries q addr target t = reap retries q addr target t n
wait_pending none retries q addr target t =
    pure (if matches q addr target then timed_out else failed, q)

-- by `valid` and `pending`
wait_state :
    (valid pending : Bool) → (retries : ℕ) → Kcpu → (addr target timeout_ns : ℕ) → M (Poll × Kcpu)
unfolding wait_pending enqueue
wait_state true true retries q addr target t = wait_pending q.fence_fd retries q addr target t
wait_state true false retries q addr target t = enqueue retries q addr target t
wait_state false pending retries q addr target t = pure (failed, q)

wait_locked : (retries : ℕ) → Kcpu → (addr target timeout_ns : ℕ) → M (Poll × Kcpu)
unfolding wait_state
wait_locked retries q addr target t = wait_state q.valid q.pending retries q addr target t

-- with whether the device and the address allow a wait at all
wait_if :
    (allowed : Bool) → (retries : ℕ) → Device → (addr target timeout_ns : ℕ) → M (Poll × Device)
unfolding wait_locked
wait_if false retries d addr target t = pure (failed, d)
wait_if true retries d addr target t = do
  own_call Call.lock
  (r, q) ← wait_locked retries d.kcpu addr target t
  own_call Call.unlock
  pure (r, record d { kcpu = q })

-- kbase_kmod_csf_wait_cqs64
pub wait_cqs64 : (retries : ℕ) → Device → (addr target_minus_one timeout_ns : ℕ) → M (Poll × Device)
unfolding wait_if
wait_cqs64 retries d addr target t = wait_if (d.is_csf && (addr % 16 == 0)) retries d addr target t
