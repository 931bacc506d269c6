-- ===== src/GpuQueue/Status.antt =====
-- panvk_per_arch(gpu_queue_check_status): the errors of the subqueues, then the wait for the queue
-- to be idle, of which nothing is reported.
use pan_vk_kbase.Prelude.{
  ℕ, zero, suc, ◌+◌, ◌≡◌, ◌≤◌, Bool, true, false, ◌&&◌, Option, none, some, ◌∷◌, ◌==◌, length,
  arith,
}
use pan_vk_kbase.Kernel.{Kernel, Log, Call, Reply, ok, fail, M, call, pure, ◌>>=◌, ◌>>◌}
use pan_vk_kbase.GpuQueue.{PerSubqueue}

-- the word that was loaded
abbrev pub word : Reply → ℕ
word (fail e) = 0
word (ok o) = o.value

-- a round of the wait, by whether the queue is idle
abbrev wait_if : (idle : Bool) → M (Unit {0}) → M (Unit {0})
wait_if true rest = pure tt
wait_if false rest = rest

-- The wait, for a number of rounds: CS_ACTIVE is the word at 16. That it sleeps is left out.
unfoldable pub wait_idle : (rounds output_page : ℕ) → M (Unit {0})
wait_idle zero page = pure tt
wait_idle (suc n) page = do
  r ← call (Call.read32 (page + 16))
  wait_if (word r == 0) (wait_idle n page)

unfoldable pub wait_idle_opt : Option ℕ → M (Unit {0})
unfolding wait_idle
wait_idle_opt none = pure tt
wait_idle_opt (some page) = wait_idle 1000 page

-- the check of one subqueue, by its `last_error`
abbrev check_if : (fine : Bool) → M Bool → M Bool
check_if true rest = rest
check_if false rest = pure false

unfoldable pub check_error : (addr : ℕ) → M Bool → M Bool
check_error addr rest = do r ← call (Call.read32 addr); check_if (word r == 0) rest

-- the whole, on the addresses of the three words: whether it answers VK_SUCCESS
unfoldable pub check_status : PerSubqueue ℕ → (output_page : Option ℕ) → M Bool
unfolding check_error wait_idle_opt
check_status errors page =
    check_error errors.vertex_tiler
      (check_error errors.fragment (check_error errors.compute (wait_idle_opt page >> pure true)))

length-wait_idle :
    (n page : ℕ) (k : Kernel) (l : Log) → length (wait_idle n page k l).1 ≤ length l + n
unfolding wait_idle
length-wait_idle zero page k l = omega arith
length-wait_idle (suc n) page k l =
    let c = Call.read32 (page + 16) in ground (arith, length-wait_idle n page k ((c, k l c) ∷ l))

length-wait_idle_opt :
    (page : Option ℕ) (k : Kernel) (l : Log) → length (wait_idle_opt page k l).1 ≤ length l + 1000
unfolding wait_idle_opt
length-wait_idle_opt none k l = omega arith
length-wait_idle_opt (some page) k l = length-wait_idle 1000 page k l

-- a check that takes one load more than the rest
length-check_error :
    (addr n : ℕ) (rest : M Bool) (k : Kernel) (l : Log)
    → ((l' : Log) → length (rest k l').1 ≤ length l' + n)
    → length (check_error addr rest k l).1 ≤ length l + suc n
unfolding check_error
length-check_error addr n rest k l h =
    let c = Call.read32 addr in ground (arith, h ((c, k l c) ∷ l))

-- The status check ends after three loads of errors and a thousand of the output page at most.
length-check_status :
    (errors : PerSubqueue ℕ) (page : Option ℕ) (k : Kernel) (l : Log)
    → length (check_status errors page k l).1 ≤ length l + 1003
unfolding check_status
length-check_status errors page k l = length-check_error errors.vertex_tiler 1002 _ k l (λ l1.
    length-check_error errors.fragment 1001 _ k l1 (λ l2.
      length-check_error errors.compute 1000 (wait_idle_opt page >> pure true) k l2
        (length-wait_idle_opt page k)))

-- The verdict of the check: every one of the three error words read as zero.
pub check_status-verdict :
    (errors : PerSubqueue ℕ) (page : Option ℕ) (k : Kernel) (l : Log)
    → let r1 = call (Call.read32 errors.vertex_tiler) k l in
      let r2 = call (Call.read32 errors.fragment) k r1.1 in
      let r3 = call (Call.read32 errors.compute) k r2.1 in
      (check_status errors page k l).0 ≡ ((word r1.0 == 0) && (word r2.0 == 0) && (word r3.0 == 0))
unfolding check_status check_error
check_status-verdict errors page k l = ground arith
