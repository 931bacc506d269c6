-- ===== src/Pan/Binding.antt =====
-- What the address space of pan_kmod.c's own backend takes and never gives back.
use pan_vk_kbase.Prelude.{
  ℕ, ◌+◌, ◌≡◌, ◌<◌, refl, Bool, false, Option, none, some, List, [], ◌∷◌, ◌==◌, if◌then◌else◌, map,
  arith,
}
use pan_vk_kbase.Kernel.{Kernel, Log, Call, Reply, ok, fail}
use pan_vk_kbase.Kernel.Ledger.{Kind, held, one, region, range}
use pan_vk_kbase.Pan.{PanBo, kbase_bo_alloc, bo_put, kbase_bo_free}
use pan_vk_kbase.Pan.Space.{
  pan_bo_alloc, PanVm, pan_vm_create, pan_vm_destroy, OpType, op_map, op_unmap, op_sync_only, VmOp,
  pan_auto_va, map_alignment, bind_type, pan_vm_bind,
}

abbrev IsNonzero : Reply → Type 0
IsNonzero (fail e) = Unit {0}
IsNonzero (ok o) = 0 < o.value

-- util_vma_heap_alloc() answers 0 for failure, and for nothing else.
abbrev pub HeapLaw : Kernel → Type 0
HeapLaw k =
    (l : Log) (heap size alignment : ℕ) → IsNonzero (k l (Call.vma_alloc heap size alignment))

abbrev asks : OpType → (start : ℕ) → Bool
asks op_map start = start == pan_auto_va
asks op_unmap start = false
asks op_sync_only start = false

-- the ranges that a binding took: those of the mappings that asked for one and have an address
-- afterwards
abbrev pub taken : (before after : List VmOp) → Kind → ℕ → ℕ
taken [] rs κ x = 0
taken (o ∷ os) [] κ x = 0
taken (o ∷ os) (r ∷ rs) κ x =
    (if asks o.type o.start then (if r.start == 0 then 0 else one range r.start κ x) else 0)
    + taken os rs κ x

-- the unmapping of a mapping
abbrev pub unmap_of : VmOp → VmOp
unmap_of op = record op { type = op_unmap }

module _ (vm : PanVm) (k : Kernel) (law : HeapLaw k) where
  held-bind_type :
      (o : VmOp) (l : Log) (κ : Kind) (x : ℕ)
      → held (bind_type o.type vm.self o k l).1 κ x
        ≡ held l κ x + taken (o ∷ []) ((bind_type o.type vm.self o k l).0 ∷ []) κ x
  unfolding bind_type
  held-bind_type o l κ x = ground (arith, law l vm.self o.size (map_alignment o.size))

  held-pan_vm_bind :
      (ops : List VmOp) (l : Log) (κ : Kind) (x : ℕ)
      → held (pan_vm_bind vm ops k l).1 κ x ≡ held l κ x + taken ops (pan_vm_bind vm ops k l).0 κ x
  unfolding pan_vm_bind
  held-pan_vm_bind [] l κ x = omega arith
  held-pan_vm_bind (o ∷ os) l κ x =
      let l' = (bind_type o.type vm.self o k l).1 in
      omega (arith, held-bind_type o l κ x, held-pan_vm_bind os l' κ x)

  taken-unmap : (ops rs : List VmOp) (κ : Kind) (x : ℕ) → taken (map unmap_of ops) rs κ x ≡ 0
  taken-unmap [] rs κ x = refl
  taken-unmap (o ∷ os) [] κ x = refl
  taken-unmap (o ∷ os) (r ∷ rs) κ x = omega (arith, taken-unmap os rs κ x)

  -- Where the address heap answers 0 for failure only, operations that were bound and then all
  -- unmapped leave held the ranges that the binding took.
  unmap-keeps_ranges :
      (ops : List VmOp) (l : Log) (κ : Kind) (x : ℕ)
      → let bound = pan_vm_bind vm ops k l in
        held (pan_vm_bind vm (map unmap_of bound.0) k bound.1).1 κ x
        ≡ held l κ x + taken ops bound.0 κ x
  unmap-keeps_ranges ops l κ x =
      let bound = pan_vm_bind vm ops k l in
      omega (
        arith,
        held-pan_vm_bind ops l κ x,
        held-pan_vm_bind (map unmap_of bound.0) bound.1 κ x,
        taken-unmap bound.0 (pan_vm_bind vm (map unmap_of bound.0) k bound.1).0 κ x,
      )

-- By the dummy object: without one the destruction follows a NULL pointer; with one it ends, and the
-- region of the dummy object stays.
abbrev pub LeavesDummy : Option PanBo → Option (Unit {0}) × Log → Log → Kind → ℕ → Type 0
LeavesDummy none r l κ x = r.0 ≡ none
LeavesDummy (some b) r l κ x = (r.0 ≡ some tt) × (held r.1 κ x ≡ held l κ x + one region b.priv κ x)

-- An address space that was created and then destroyed leaves the region of its dummy object held,
-- and nothing else; if the dummy object was not made, the destruction follows a NULL pointer.
pan_vm_destroy-pan_vm_create :
    (pgsize : ℕ) (vm : PanVm) (k : Kernel) (l : Log) (κ : Kind) (x : ℕ)
    → (pan_vm_create pgsize k l).0 ≡ some vm
    → LeavesDummy vm.sparse_dummy (pan_vm_destroy vm k (pan_vm_create pgsize k l).1) l κ x
unfolding pan_vm_create pan_vm_destroy pan_bo_alloc kbase_bo_alloc bo_put kbase_bo_free
pan_vm_destroy-pan_vm_create pgsize vm k l κ x e = ground arith
