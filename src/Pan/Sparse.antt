-- ===== src/Pan/Sparse.antt =====
-- A sparse mapping over a backend that has none: pan_kmod_get_dummy_object,
-- pan_kmod_vm_multi_op_push, _flush and _emulate_sparse and pan_kmod_vm_bind of pan_kmod.h. The dummy
-- object is part of the address space, which the operations return. An assertion is no code.
pub mod Loop
pub mod Held
use pan_vk_kbase.Prelude.{
  ℕ, zero, suc, ◌+◌, ◌-◌, ◌*◌, ◌%◌, ◌^◌, Bool, true, false, Option, none, some, List, [], ◌∷◌, ◌++◌,
  length, min, ltb, ◌==◌,
}
use pan_vk_kbase.Flags.{no_bo_flags}
use pan_vk_kbase.Kernel.{Call, M, own_call, pure, ◌>>=◌, ◌>>◌}
use pan_vk_kbase.Pan.{PanBo}
use pan_vk_kbase.Pan.Space.{PanVm, pan_bo_alloc, VmOp, op_map, pan_vm_bind}

-- PAN_PGSIZE_2M
abbrev pub pgsize_2m : ℕ
pgsize_2m = 2 ^ 21

-- the dummy object, made if there is none yet
unfoldable pub make_dummy : Option PanBo → M (Option PanBo)
unfolding pan_bo_alloc
make_dummy none = pan_bo_alloc pgsize_2m (record no_bo_flags { no_mmap = true })
make_dummy (some b) = pure (some b)

-- pan_kmod_get_dummy_object: the address space with its dummy object, if there is one now
unfoldable pub get_dummy_object : PanVm → M PanVm
unfolding make_dummy
get_dummy_object vm = do
  own_call Call.lock
  d ← make_dummy vm.sparse_dummy
  own_call Call.unlock
  pure (record vm { sparse_dummy = d })

-- the capacity of the storage
abbrev pub storage_capacity : ℕ
storage_capacity = 16

-- pan_kmod_vm_multi_op_flush, of a backend whose vm_bind returns 0
unfoldable pub multi_op_flush : PanVm → List VmOp → M (Unit {0})
unfolding pan_vm_bind
multi_op_flush vm ops = pan_vm_bind vm ops >> pure tt

-- by whether the storage is full
unfoldable pub push_by : (full : Bool) → PanVm → VmOp → List VmOp → M (List VmOp)
unfolding multi_op_flush
push_by true vm op ops = multi_op_flush vm ops >> pure (op ∷ [])
push_by false vm op ops = pure (ops ++ op ∷ [])

-- pan_kmod_vm_multi_op_push of an operation that is not sparse: the operations that wait
unfoldable pub multi_op_push : PanVm → VmOp → List VmOp → M (List VmOp)
unfolding push_by
multi_op_push vm op ops = push_by (length ops == storage_capacity) vm op ops

-- the operation that maps the dummy object at an offset of the range
abbrev pub chunk : (dummy_size base size off : ℕ) → VmOp
chunk dummy_size base size off =
    let va = (base + off) % 2 ^ 64 in
    record { type = op_map; start = va; size = min (dummy_size - va % dummy_size) (size - off) }

-- The loop of pan_kmod_vm_multi_op_emulate_sparse over a dummy object whose size is a power of two:
-- the offset that it reached, with the operations that wait.
unfoldable pub sparse_loop :
    (fuel : ℕ) → PanVm → (dummy_size base size off : ℕ) → List VmOp → M (ℕ × List VmOp)
unfolding multi_op_push
sparse_loop zero vm dummy_size base size off ops = pure (off, ops)
sparse_loop (suc fuel) vm dummy_size base size off ops = elim (ltb off size) [
  | false ↦ pure (off, ops)
  | true ↦ do
    let c = chunk dummy_size base size off
    ops' ← multi_op_push vm c ops
    sparse_loop fuel vm dummy_size base size (off + c.size) ops'
]

-- pan_kmod_vm_multi_op_emulate_sparse from empty storage, and the flush behind it, by the dummy
-- object: whether it returned 0
unfoldable pub emulate_sparse : Option PanBo → PanVm → (base size : ℕ) → M Bool
unfolding sparse_loop multi_op_flush
emulate_sparse none vm base size = pure false
emulate_sparse (some dummy) vm base size = do
  r ← sparse_loop size vm dummy.size base size 0 []
  multi_op_flush vm r.1
  pure true

-- pan_kmod_vm_bind of one sparse mapping: whether it returned 0, and the address space
unfoldable pub bind_sparse : PanVm → (base size : ℕ) → M (Bool × PanVm)
unfolding get_dummy_object emulate_sparse
bind_sparse vm base size = do
  vm' ← get_dummy_object vm
  done ← emulate_sparse vm'.sparse_dummy vm' base size
  pure (done, vm')
