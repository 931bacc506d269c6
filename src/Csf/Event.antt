-- ===== src/Csf/Event.antt =====
-- Waiting for a notification: what the result says, and that an error once seen stays seen.
use pan_vk_kbase.Prelude.{
  ℕ, zero, suc, ◌<◌, ◌≡◌, ◌≢◌, ◌⊎◌, refl, true, false, ◌&&◌, not, Option, none, some, ◌∷◌, arith,
}
use pan_vk_kbase.Kernel.{Kernel, Log, Call, Reply, eintr, ok, fail}
use pan_vk_kbase.Device.{Device, csf_has_error}
use pan_vk_kbase.Csf.{
  latch_notification, read_loop, waited, out_of_retries, after_read, wait_event, ppoll_call,
}

-- the log after `n` interrupted reads
abbrev pub reads : Kernel → Log → ℕ → Log
reads k l zero = l
reads k l (suc n) = reads k ((Call.read_event, k l Call.read_event) ∷ l) n

read_loop-returns :
    (n : ℕ) (k : Kernel) (l : Log) (r : ℕ)
    → r < n
    → (k (reads k l r) Call.read_event ≢ fail eintr)
    → (read_loop n k l).0 ≢ none
unfolding read_loop
read_loop-returns zero k l r h ne = absurd (omega arith)
read_loop-returns (suc n) k l zero h ne = grind arith
read_loop-returns (suc n) k l (suc r) h ne =
    grind (arith, read_loop-returns n k ((Call.read_event, k l Call.read_event) ∷ l) r)

-- the reads succeed or fail for good within the retries
abbrev pub Settles : ℕ → Kernel → Log → Type 0
Settles n k l = (r : ℕ) × (r < n) × (k (reads k l r) Call.read_event ≢ fail eintr)

after_read-ne : (d : Device) (r : Option Reply) → r ≢ none → (after_read d r).0 ≢ out_of_retries
unfolding after_read
after_read-ne d none h = absurd (h refl)
after_read-ne d (some (fail e)) h = cc
after_read-ne d (some (ok o)) h = ground arith

-- kbase_kmod_csf_wait_event returns if the kernel interrupts the read fewer times than there are
-- retries.
wait_event-returns :
    (n : ℕ) (d : Device) (t : ℕ) (k : Kernel) (l : Log)
    → Settles n k ((ppoll_call d.fd t, k l (ppoll_call d.fd t)) ∷ l)
    → (wait_event n d t k l).0.0 ≢ out_of_retries
unfolding wait_event
wait_event-returns n d t k l (r, lt, ne) =
    let l' = (ppoll_call d.fd t, k l (ppoll_call d.fd t)) ∷ l in
    ground (arith, read_loop-returns n k l' r lt ne, after_read-ne d (read_loop n k l').0)

-- A wait that returns 0 may have latched the error of a queue group; in every other outcome the
-- device is the same; an error once seen stays seen.
wait_event_device :
    (n : ℕ) (d : Device) (t : ℕ) (k : Kernel) (l : Log)
    → let (w, d') = (wait_event n d t k l).0 in
      ((d' ≡ d) ⊎ ((w ≡ waited) × (d' ≡ record d { csf_error = true })))
      × ((csf_has_error d && not (csf_has_error d')) ≡ false)
unfolding wait_event latch_notification csf_has_error
wait_event_device n d t k l = (ground arith, ground arith)
