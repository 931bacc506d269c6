-- ===== src/Pan/Sparse/Loop.antt =====
-- The loop of pan_kmod_vm_multi_op_emulate_sparse: it covers the range, and its operations have
-- addresses of their own, for which kbase_vm_bind makes no call.
use native.Mathlib.Decide.{dec_lt}
use pan_vk_kbase.Prelude.{
  ℕ, zero, suc, ◌+◌, ◌-◌, ◌%◌, ◌^◌, ◌<◌, ◌≤◌, ◌≡◌, ◌⊎◌, refl, ◌∙◌, Bool, true, lt→ltb,
  length-append, false, List, [], ◌∷◌, ◌++◌, length, ltb, ◌==◌, arith,
}
use pan_vk_kbase.Kernel.{Kernel, Log}
use pan_vk_kbase.Pan.Space.{PanVm, VmOp, OpType, bind_type, pan_vm_bind}
use pan_vk_kbase.Pan.Sparse.{
  pgsize_2m, storage_capacity, multi_op_flush, push_by, multi_op_push, chunk, sparse_loop,
}

-- the operations name their addresses
abbrev pub AreFixed : List VmOp → Type 0
AreFixed [] = Unit {0}
AreFixed (op ∷ ops) = ((op.start == 2 ^ 64 - 1) ≡ false) × AreFixed ops

AreFixed-append :
    (ops : List VmOp) (op : VmOp)
    → AreFixed ops
    → (op.start == 2 ^ 64 - 1) ≡ false
    → AreFixed (ops ++ op ∷ [])
AreFixed-append [] op h e = (e, tt)
AreFixed-append (o ∷ ops) op h e = (h.0, AreFixed-append ops op h.1 e)

module _ (vm : PanVm) (k : Kernel) where
  bind_type-makes_no_call :
      (t : OpType) (op : VmOp) (l : Log)
      → (op.start == 2 ^ 64 - 1) ≡ false
      → (bind_type t vm.self op k l).1 ≡ l
  unfolding bind_type
  bind_type-makes_no_call t op l e = ground (arith, e)

  pan_vm_bind-makes_no_call :
      (ops : List VmOp) (l : Log) → AreFixed ops → (pan_vm_bind vm ops k l).1 ≡ l
  unfolding pan_vm_bind
  pan_vm_bind-makes_no_call [] l h = refl
  pan_vm_bind-makes_no_call (op ∷ ops) l h =
      pan_vm_bind-makes_no_call ops (bind_type op.type vm.self op k l).1 h.1
      ∙ bind_type-makes_no_call op.type op l h.0

  pub multi_op_flush-makes_no_call :
      (ops : List VmOp) (l : Log) → AreFixed ops → (multi_op_flush vm ops k l).1 ≡ l
  unfolding multi_op_flush
  multi_op_flush-makes_no_call ops l h = pan_vm_bind-makes_no_call ops l h

  -- The range is covered, or the next operation starts at the start of the range or of a page.
  abbrev IsNext : (base size off : ℕ) → Type 0
  IsNext base size off = (size ≤ off) ⊎ ((off ≡ 0) ⊎ ((base + off) % 2 ^ 21 ≡ 0))

  chunk-IsFixed :
      (base size off : ℕ)
      → base < 2 ^ 64 - 1
      → off < size
      → IsNext base size off
      → ((chunk pgsize_2m base size off).start == 2 ^ 64 - 1) ≡ false
  chunk-IsFixed base size off b lt n = ground (arith, b, lt, n)

  chunk-IsNext :
      (base size off : ℕ)
      → off < size
      → let off' = off + (chunk pgsize_2m base size off).size in
        (off < off') × (off' ≤ size) × IsNext base size off'
  chunk-IsNext base size off lt = ground (arith, lt)

  -- The storage after a push holds no more than its capacity, and no call was made.
  abbrev IsPushed : List VmOp × Log → Log → Type 0
  IsPushed r l = AreFixed r.0 × (length r.0 ≤ 16) × (r.1 ≡ l)

  push_by-IsPushed :
      (full : Bool) (op : VmOp) (ops : List VmOp) (l : Log)
      → (length ops == storage_capacity) ≡ full
      → AreFixed ops
      → length ops ≤ 16
      → (op.start == 2 ^ 64 - 1) ≡ false
      → IsPushed (push_by full vm op ops k l) l
  unfolding push_by
  push_by-IsPushed true op ops l e h n f =
      ((f, tt), omega arith, multi_op_flush-makes_no_call ops l h)
  push_by-IsPushed false op ops l e h n f =
      (AreFixed-append ops op h f, ground (arith, e, n, length-append ops (op ∷ [])), refl)

  multi_op_push-IsPushed :
      (op : VmOp) (ops : List VmOp) (l : Log)
      → AreFixed ops
      → length ops ≤ 16
      → (op.start == 2 ^ 64 - 1) ≡ false
      → IsPushed (multi_op_push vm op ops k l) l
  unfolding multi_op_push
  multi_op_push-IsPushed op ops l h n f =
      push_by-IsPushed (length ops == storage_capacity) op ops l refl h n f

  not-ltb : (a b : ℕ) → ¬ (a < b) → ltb a b ≡ false
  not-ltb a b d = ground (arith, d)

  -- The loop from an offset, with fuel for one byte a round, reaches the end of the range and makes
  -- no call; what waits is within the storage.
  pub sparse_loop-ends :
      (fuel base size off : ℕ) (ops : List VmOp) (l : Log)
      → base < 2 ^ 64 - 1
      → off ≤ size
      → size - off ≤ fuel
      → IsNext base size off
      → AreFixed ops
      → length ops ≤ 16
      → let r = sparse_loop fuel vm pgsize_2m base size off ops k l in
        (r.0.0 ≡ size) × IsPushed (r.0.1, r.1) l
  unfolding sparse_loop
  sparse_loop-ends zero base size off ops l b o f n h c = (omega arith, (h, c, refl))
  sparse_loop-ends (suc fuel) base size off ops l b o f n h c = elim (dec_lt off size) [
    | no d ↦ rw (sparse_loop, not-ltb off size d) (omega (arith, d), (h, c, refl))
    | yes lt ↦
        let ch = chunk pgsize_2m base size off in
        let x = chunk-IsNext base size off lt in
        let p = multi_op_push vm ch ops k l in
        let ip = multi_op_push-IsPushed ch ops l h c (chunk-IsFixed base size off b lt n) in
        let rest =
          sparse_loop-ends fuel base size (off + ch.size) p.0 p.1 b x.1 (omega arith) x.2 ip.0
            ip.1 in
        rw (sparse_loop, lt→ltb off size lt) (rest.0, (rest.1.0, rest.1.1, rest.1.2 ∙ ip.2))
  ]
