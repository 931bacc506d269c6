-- ===== src/DeviceMemory/Lifetime.antt =====
-- The application's memory from its allocation over any sequence of mappings to its end.
use pan_vk_kbase.Prelude.{
  ℕ, ◌+◌, ◌-◌, ◌≡◌, refl, subst, ap, ◌∙◌, Bool, true, false, Option, none, some, List, ◌∷◌, arith,
}
use pan_vk_kbase.Flags.{BoFlags}
use pan_vk_kbase.Kernel.{Kernel, Log, Call, Reply, ok, fail}
use pan_vk_kbase.Kernel.Ledger.{Kind, held, one, memory, region, mapping}
use pan_vk_kbase.Pan.{PanBo, kbase_bo_alloc, bo_put, kbase_bo_free}
use pan_vk_kbase.Pan.Space.{pan_bo_alloc, bind_type, pan_vm_bind, pan_auto_va, map_alignment}
use pan_vk_kbase.Pan.Binding.{HeapLaw}
use pan_vk_kbase.PrivBo.{VkResult, vk_success}
use pan_vk_kbase.PrivBo.Lifetime.{range_of}
use pan_vk_kbase.DeviceMemory.Mapping.{
  host_of, MapOp, map_run, reserved_by, IsElsewhere, IsOf, map_run-IsOf,
}
use pan_vk_kbase.DeviceMemory.{
  MemDev, DeviceMemory, AllocateInfo, memory_va, allocate_at, allocate_from, allocate_object,
  memory_flags, allocate_object_if, allocate_unless, allocate_memory, munmap_unless, free_va,
  free_memory,
}

-- what an allocation that succeeded holds
abbrev pub IsAllocated :
    VkResult × Option DeviceMemory × ℕ → (before after : Log) → Kind → ℕ → Type 0
IsAllocated (r, none, used) l l' κ x = Unit {0}
IsAllocated (r, some m, used) l l' κ x =
    (m.host ≡ 0)
    × (m.bo.refcnt ≡ 1)
    × (held l' κ x
        ≡ held l κ x
          + one memory m.self κ x
          + one memory m.bo.self κ x
          + one region m.bo.priv κ x
          + range_of m.dev_addr κ x)

-- the object that pan_kmod_bo_alloc gives
abbrev IsMade : Option PanBo → (before after : Log) → Kind → ℕ → Type 0
IsMade none l l' κ x = Unit {0}
IsMade (some b) l l' κ x =
    (b.refcnt ≡ 1) × (held l' κ x ≡ held l κ x + one memory b.self κ x + one region b.priv κ x)

module _ (k : Kernel) (heap : HeapLaw k) (κ : Kind) (x : ℕ) where
  module _ (dev : MemDev) (auto : dev.vm.auto_va ≡ true) (i : AllocateInfo) where
    pan_bo_alloc-IsMade :
        (size : ℕ) (f : BoFlags) (l : Log)
        → IsMade (pan_bo_alloc size f k l).0 l (pan_bo_alloc size f k l).1 κ x
    unfolding pan_bo_alloc kbase_bo_alloc
    pan_bo_alloc-IsMade size f l = ground arith

    allocate_at-IsAllocated :
        (self used : ℕ) (b : PanBo) (l0 l : Log)
        → i.import_fd ≡ none
        → b.refcnt ≡ 1
        → held l κ x
          ≡ held l0 κ x + one memory self κ x + one memory b.self κ x + one region b.priv κ x
        → IsAllocated
            (allocate_at false dev self b i pan_auto_va used k l).0
            l0
            (allocate_at false dev self b i pan_auto_va used k l).1
            κ
            x
    unfolding allocate_at pan_vm_bind bind_type
    allocate_at-IsAllocated self used b l0 l no_fd r h =
        ground (arith, r, h, no_fd, heap l dev.vm.self b.size (map_alignment b.size))

    allocate_from-IsAllocated :
        (self used : ℕ) (r : VkResult) (b : Option PanBo) (l0 l l' : Log)
        → i.import_fd ≡ none
        → held l κ x ≡ held l0 κ x + one memory self κ x
        → IsMade b l l' κ x
        → IsAllocated
            (allocate_from dev self r b i used k l').0
            l0
            (allocate_from dev self r b i used k l').1
            κ
            x
    unfolding allocate_from memory_va
    allocate_from-IsAllocated self used r none l0 l l' no_fd h m = tt
    allocate_from-IsAllocated self used r (some b) l0 l l' no_fd h m =
        rw auto (allocate_at-IsAllocated self used b l0 l' no_fd m.0 (omega arith))

    allocate_object-IsAllocated :
        (fd : Option ℕ) (self used : ℕ) (l0 l : Log)
        → i.import_fd ≡ fd
        → held l κ x ≡ held l0 κ x + one memory self κ x
        → IsAllocated
            (allocate_object fd dev self i used k l).0
            l0
            (allocate_object fd dev self i used k l).1
            κ
            x
    unfolding allocate_object allocate_from
    allocate_object-IsAllocated (some fd) self used l0 l e h = tt
    allocate_object-IsAllocated none self used l0 l e h =
        let b = pan_bo_alloc i.size (memory_flags dev i) k l in
        allocate_from-IsAllocated self used _ b.0 l0 l b.1 e h
          (pan_bo_alloc-IsMade i.size (memory_flags dev i) l)

    allocate_object_if-IsAllocated :
        (r : Reply) (used : ℕ) (l : Log)
        → let l1 : Log = (Call.alloc, r) ∷ l in
          IsAllocated
            (allocate_object_if r dev i used k l1).0
            l
            (allocate_object_if r dev i used k l1).1
            κ
            x
    unfolding allocate_object_if
    allocate_object_if-IsAllocated (fail e) used l = tt
    allocate_object_if-IsAllocated (ok o) used l =
        allocate_object-IsAllocated i.import_fd o.value used l ((Call.alloc, ok o) ∷ l) refl
          (omega arith)

    allocate_unless-IsAllocated :
        (unknown : Bool) (used : ℕ) (l : Log)
        → IsAllocated
            (allocate_unless unknown dev i used k l).0
            l
            (allocate_unless unknown dev i used k l).1
            κ
            x
    unfolding allocate_unless
    allocate_unless-IsAllocated true used l = tt
    allocate_unless-IsAllocated false used l =
        allocate_object_if-IsAllocated (k l Call.alloc) used l

    pub allocate_memory-IsAllocated :
        (used : ℕ) (l : Log)
        → IsAllocated (allocate_memory dev i used k l).0 l (allocate_memory dev i used k l).1 κ x
    unfolding allocate_memory
    allocate_memory-IsAllocated used l = allocate_unless-IsAllocated i.exports_unknown used l

    held-free_memory :
        (m : DeviceMemory) (used : ℕ) (l : Log)
        → m.bo.refcnt ≡ 1
        → held (free_memory dev m used k l).1 κ x
          ≡ held l κ x - host_of m.host κ x - one memory m.bo.self κ x - one memory m.self κ x
    unfolding free_memory munmap_unless pan_vm_bind bind_type free_va bo_put kbase_bo_free
    held-free_memory m used l r = ground (arith, r, auto)

    free_memory-IsOf :
        (m0 m : DeviceMemory) (base used : ℕ) (l : Log)
        → m0.bo.refcnt ≡ 1
        → IsOf m0 base m l κ x
        → held (free_memory dev m used k l).1 κ x
          ≡ base - one memory m0.bo.self κ x - one memory m0.self κ x
    free_memory-IsOf m0 m base used l r h = omega (
      arith,
      held-free_memory m used l (ap (λ (b : PanBo). b.refcnt) h.1 ∙ r),
      h.4,
      ap (λ (b : PanBo). one memory b.self κ x) h.1,
      ap (λ s. one memory s κ x) h.0,
    )

    module _ (used used' : ℕ) (l : Log) (m : DeviceMemory)
        (e : (allocate_memory dev i used k l).0 ≡ (vk_success, some m, used')) where
      allocated : IsAllocated (vk_success, some m, used') l (allocate_memory dev i used k l).1 κ x
      allocated =
          subst (λ r. IsAllocated r l (allocate_memory dev i used k l).1 κ x) e
            (allocate_memory-IsAllocated used l)

      -- In an address space with AUTO_VA, where the address heap answers 0 for failure only, a
      -- memory that panvk_AllocateMemory returned, that was then mapped and unmapped in any order
      -- and with any outcome, with and without reservations and placed mappings, and was freed,
      -- leaves the process holding what it held before, the address range of its binding and the
      -- anonymous mappings that the unmappings with a reservation left, of each kind and name but
      -- a mapping at address 0 or at a placed address and the region of its object.
      pub free_memory-map_run :
          (os : List MapOp) (u : ℕ)
          → one mapping 0 κ x ≡ 0
          → one region m.bo.priv κ x ≡ 0
          → IsElsewhere os κ x
          → let l' = (allocate_memory dev i used k l).1 in
            let r = map_run os m k l' in
            held (free_memory dev r.0 u k r.1).1 κ x
            ≡ held l κ x + range_of m.dev_addr κ x + reserved_by k os m l' κ x
      free_memory-map_run os u z nr p =
          let l' = (allocate_memory dev i used k l).1 in
          let r = map_run os m k l' in
          let a = allocated in
          let no_host : host_of m.host κ x ≡ 0 = ap (λ h. host_of h κ x) a.0 in
          let n = reserved_by k os m l' κ x in
          let h =
            map_run-IsOf k κ x z m nr os m l' (held l' κ x) p
              (refl, refl, refl, refl, omega (arith, no_host)) in
          omega (arith, free_memory-IsOf m r.0 (held l' κ x + n) u r.1 a.1 h, a.2, nr)
