-- ===== src/Syncobj.antt =====
-- The sync objects of mesa_src/lib/mesa_kmod/pan_kmod_syncobj.c: handles from a counter, and a wait
-- that reads one word of the queue's output page.
pub mod Wait
pub mod Tests
use pan_vk_kbase.Prelude.{
  ℕ, zero, suc, ◌+◌, ◌%◌, ◌^◌, Bool, true, false, ◌&&◌, not, Option, none, some, List, [], ◌∷◌, ltb,
  ◌==◌, if◌then◌else◌,
}

-- kbase_drm_syncobj_create: the handle, and the counter after it. The counter starts at 1.
syncobj_create : (next : ℕ) → ℕ × ℕ
syncobj_create next = (next, (next + 1) % 2 ^ 32)

-- a 64-bit timeout, negative or not
pub data Timeout : Type 0 where
  negative : Timeout
  ns : ℕ → Timeout

-- in nanoseconds, a second at most
pub timeout_ns : Timeout → ℕ
timeout_ns negative = 1000000000
timeout_ns (ns t) = if ltb 1000000000 t then 1000000000 else t

-- The loop, with the rounds left, on what the word reads from one round to the next: how many rounds
-- slept, or `none` if they ran out.
pub wait_loop : (rounds : ℕ) → (word : ℕ → ℕ) → (round elapsed timeout : ℕ) → Option ℕ
wait_loop zero word n elapsed t = none
wait_loop (suc r) word n elapsed t =
    let rest = wait_loop r word (suc n) (elapsed + 1000000) t in
    if not (word n == 0) && ltb elapsed t then rest else some n

-- 0, however the loop ended
abbrev pub returned : Option ℕ → Option (ℕ × ℕ)
returned none = none
returned (some n) = some (0, n)

-- kbase_drm_syncobj_wait: what it returns, and how many rounds slept. `word` is word 2 of the output
-- page, if there is one. A second holds a thousand rounds.
pub syncobj_wait : (word : Option (ℕ → ℕ)) → Timeout → Option (ℕ × ℕ)
unfolding wait_loop timeout_ns
syncobj_wait none t = some (0, 0)
syncobj_wait (some word) t = returned (wait_loop 1001 word 0 0 (timeout_ns t))
