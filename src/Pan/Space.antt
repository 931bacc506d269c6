-- ===== src/Pan/Space.antt =====
-- The address space of pan_kmod.c's own backend: kbase_vm_create, kbase_vm_destroy and
-- kbase_vm_bind over a heap of addresses (util/vma.h, behind the boundary), and pan_kmod_bo_alloc,
-- which notes an object under its handle.
use pan_vk_kbase.Prelude.{
  ℕ, ◌-◌, ◌*◌, ◌^◌, Bool, true, false, Option, none, some, List, [], ◌∷◌, leb, ◌==◌, if◌then◌else◌,
}
use pan_vk_kbase.Flags.{BoFlags, no_bo_flags}
use pan_vk_kbase.Kernel.{Call, ok, fail, M, call, own_call, pure, ◌>>=◌, ◌>>◌}
use pan_vk_kbase.Pan.{PanBo, kbase_bo_alloc, bo_put}

-- the store under the lock
abbrev note_handle : PanBo → M (Unit {0})
note_handle b =
    own_call Call.lock >> own_call (Call.set_slot b.handle b.self) >> own_call Call.unlock

-- pan_kmod_bo_alloc
unfoldable pub pan_bo_alloc : (size : ℕ) → BoFlags → M (Option PanBo)
unfolding kbase_bo_alloc
pan_bo_alloc size f = do
  b ← kbase_bo_alloc size f
  elim b [ none ↦ pure none | some o ↦ note_handle o >> pure (some o) ]

-- struct kbase_kmod_vm, with its address also the name of its heap
pub record PanVm : Type 0 where
  pub self : ℕ
  pub auto_va : Bool
  pub pgsize_bitmap : ℕ
  pub sparse_dummy : Option PanBo

-- kbase_vm_create. A space is AUTO_VA whatever the flags asked for.
unfoldable pub pan_vm_create : (pgsize_bitmap : ℕ) → M (Option PanVm)
unfolding pan_bo_alloc
pan_vm_create pgsize = do
  a ← call Call.alloc
  elim a [
    | fail e ↦ pure none
    | ok p ↦ do
      own_call (Call.vma_init p.value 0x100000000 0x400000000)
      dummy ← pan_bo_alloc (2 * 1024 * 1024) (record no_bo_flags { no_mmap = true })
      pure (
          some (record {
            self = p.value;
            auto_va = true;
            pgsize_bitmap = pgsize;
            sparse_dummy = dummy;
          }))
  ]

-- kbase_vm_destroy: `none` where it follows the NULL pointer of a dummy object that was not made
unfoldable pub pan_vm_destroy : PanVm → M (Option (Unit {0}))
unfolding bo_put
pan_vm_destroy vm = do
  own_call (Call.vma_finish vm.self)
  elim vm.sparse_dummy [
    | none ↦ pure none
    | some b ↦ bo_put b >> call (Call.free vm.self) >> pure (some tt)
  ]

pub data OpType : Type 0 where
  op_map op_unmap op_sync_only : OpType

-- struct pan_kmod_vm_op, the parts that this backend looks at
pub record VmOp : Type 0 where
  pub type : OpType
  pub start : ℕ
  pub size : ℕ

-- PAN_KMOD_VM_MAP_AUTO_VA
abbrev pub pan_auto_va : ℕ
pan_auto_va = 2 ^ 64 - 1

-- the alignment that the code picks
abbrev pub map_alignment : (size : ℕ) → ℕ
map_alignment size = if leb (1024 * 1024) size then 2 * 1024 * 1024 else 4096

-- one round of the loop of kbase_vm_bind, by the type of the operation
unfoldable pub bind_type : OpType → (heap : ℕ) → VmOp → M VmOp
bind_type op_unmap heap op = pure op
bind_type op_sync_only heap op = pure op
bind_type op_map heap op = elim (op.start == pan_auto_va) [
  | false ↦ pure op
  | true ↦ do
    a ← call (Call.vma_alloc heap op.size (map_alignment op.size))
    elim a [ fail e ↦ pure (record op { start = 0 }) | ok o ↦ pure (record op { start = o.value }) ]
]

-- kbase_vm_bind, which returns 0 in every case: the operations with their addresses
unfoldable pub pan_vm_bind : PanVm → List VmOp → M (List VmOp)
unfolding bind_type
pan_vm_bind vm [] = pure []
pan_vm_bind vm (op ∷ ops) = do
  o ← bind_type op.type vm.self op
  os ← pan_vm_bind vm ops
  pure (o ∷ os)
