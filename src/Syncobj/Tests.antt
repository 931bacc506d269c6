-- ===== src/Syncobj/Tests.antt =====
-- Runs of the definitions of Syncobj, and its theorem at a concrete input.
use pan_vk_kbase.Prelude.{ℕ, ◌*◌, ◌≤◌, ◌≡◌, ◌⊎◌, refl, some}
use pan_vk_kbase.Syncobj.{Timeout, timeout_ns, syncobj_wait, wait_loop}
use pan_vk_kbase.Syncobj.Wait.{syncobj_wait-returns}

abbrev stuck_word : ℕ → ℕ
stuck_word n = 1

-- three milliseconds of a word that stays set
syncobj_wait-timed_out : syncobj_wait (some stuck_word) (Timeout.ns 3000000) ≡ some (0, 3)
unfolding syncobj_wait wait_loop timeout_ns
syncobj_wait-timed_out = refl

syncobj_wait-returns_example :
    (n : ℕ) × (syncobj_wait (some stuck_word) (Timeout.ns 3000000) ≡ some (0, n))
    × (n ≤ 1000)
    × ((stuck_word n ≡ 0) ⊎ (timeout_ns (Timeout.ns 3000000) ≤ n * 1000000))
syncobj_wait-returns_example = syncobj_wait-returns stuck_word (Timeout.ns 3000000)
