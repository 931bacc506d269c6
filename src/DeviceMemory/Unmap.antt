-- ===== src/DeviceMemory/Unmap.antt =====
-- What unmapping leaves of a memory whose object is a SAME_VA region: the mapping took the region
-- over.
use pan_vk_kbase.Prelude.{
  ℕ, ◌+◌, ◌-◌, ◌≡◌, subst, Bool, true, false, Option, none, some, ◌∷◌, arith,
}
use pan_vk_kbase.Flags.{BoFlags}
use pan_vk_kbase.Kernel.{Kernel, Log, Call, Reply, ok, fail}
use pan_vk_kbase.Kernel.Ledger.{Kind, held, one, memory, region, mapping, same_va_at}
use pan_vk_kbase.Pan.{PanBo, kbase_bo_alloc, kbase_bo_get_mmap_offset}
use pan_vk_kbase.Pan.Space.{pan_bo_alloc, bind_type, pan_vm_bind, pan_auto_va}
use pan_vk_kbase.Pan.Binding.{HeapLaw}
use pan_vk_kbase.PrivBo.{VkResult, vk_success, vk_error_invalid_external_handle, bo_mmap}
use pan_vk_kbase.PrivBo.Lifetime.{SameVaLaw, range_of}
use pan_vk_kbase.DeviceMemory.{
  MemDev, DeviceMemory, AllocateInfo, memory_va, allocate_at, allocate_from, allocate_object,
  memory_flags, allocate_object_if, allocate_unless, allocate_memory, Mapped, mmap_for, map_if,
  map_memory, unmap_memory,
}
use pan_vk_kbase.DeviceMemory.Lifetime.{IsAllocated, allocate_memory-IsAllocated}

-- the region of the object is a SAME_VA one
abbrev IsShared : Option PanBo → Log → Type 0
IsShared none l = Unit {0}
IsShared (some b) l = same_va_at l b.priv ≡ true

abbrev IsSharing : VkResult × Option DeviceMemory × ℕ → Log → Type 0
IsSharing (r, none, used) l = Unit {0}
IsSharing (r, some m, used) l = same_va_at l m.bo.priv ≡ true

-- What a mapping that succeeded took over.
abbrev IsTakenOver : DeviceMemory → Mapped → (before after : Log) → Kind → ℕ → Type 0
IsTakenOver m (vk_success, a, m') l l' κ x =
    (m'.bo ≡ m.bo) × (held l' κ x ≡ held l κ x + one mapping m'.host κ x - one region m.bo.priv κ x)
IsTakenOver m (r, a, m') l l' κ x = Unit {0}

module _ (k : Kernel) (same : SameVaLaw k) (dev : MemDev) (auto : dev.vm.auto_va ≡ true)
    (i : AllocateInfo) where
  pan_bo_alloc-IsShared :
      (size : ℕ) (f : BoFlags) (l : Log)
      → IsShared (pan_bo_alloc size f k l).0 (pan_bo_alloc size f k l).1
  unfolding pan_bo_alloc kbase_bo_alloc
  pan_bo_alloc-IsShared size f l = ground (arith, same l size)

  allocate_at-IsSharing :
      (self used : ℕ) (b : PanBo) (l : Log)
      → same_va_at l b.priv ≡ true
      → IsSharing
          (allocate_at false dev self b i pan_auto_va used k l).0
          (allocate_at false dev self b i pan_auto_va used k l).1
  unfolding allocate_at pan_vm_bind bind_type
  allocate_at-IsSharing self used b l s = ground (arith, s)

  allocate_from-IsSharing :
      (self used : ℕ) (r : VkResult) (b : Option PanBo) (l : Log)
      → IsShared b l
      → IsSharing
          (allocate_from dev self r b i used k l).0
          (allocate_from dev self r b i used k l).1
  unfolding allocate_from memory_va
  allocate_from-IsSharing self used r none l s = tt
  allocate_from-IsSharing self used r (some b) l s = rw auto (allocate_at-IsSharing self used b l s)

  allocate_object-IsSharing :
      (fd : Option ℕ) (self used : ℕ) (l : Log)
      → IsSharing
          (allocate_object fd dev self i used k l).0
          (allocate_object fd dev self i used k l).1
  unfolding allocate_object
  allocate_object-IsSharing (some fd) self used l =
      allocate_from-IsSharing self used vk_error_invalid_external_handle none l tt
  allocate_object-IsSharing none self used l =
      let b = pan_bo_alloc i.size (memory_flags dev i) k l in
      allocate_from-IsSharing self used _ b.0 b.1
        (pan_bo_alloc-IsShared i.size (memory_flags dev i) l)

  allocate_object_if-IsSharing :
      (r : Reply) (used : ℕ) (l : Log)
      → IsSharing (allocate_object_if r dev i used k l).0 (allocate_object_if r dev i used k l).1
  unfolding allocate_object_if
  allocate_object_if-IsSharing (fail e) used l = tt
  allocate_object_if-IsSharing (ok o) used l = allocate_object-IsSharing i.import_fd o.value used l

  allocate_unless-IsSharing :
      (unknown : Bool) (used : ℕ) (l : Log)
      → IsSharing
          (allocate_unless unknown dev i used k l).0
          (allocate_unless unknown dev i used k l).1
  unfolding allocate_unless
  allocate_unless-IsSharing true used l = tt
  allocate_unless-IsSharing false used l =
      allocate_object_if-IsSharing (k l Call.alloc) used ((Call.alloc, k l Call.alloc) ∷ l)

  allocate_memory-IsSharing :
      (used : ℕ) (l : Log)
      → IsSharing (allocate_memory dev i used k l).0 (allocate_memory dev i used k l).1
  unfolding allocate_memory
  allocate_memory-IsSharing used l = allocate_unless-IsSharing i.exports_unknown used l

  map_memory-IsTakenOver :
      (offset : ℕ) (m : DeviceMemory) (l : Log) (κ : Kind) (x : ℕ)
      → m.host ≡ 0
      → same_va_at l m.bo.priv ≡ true
      → IsTakenOver m (map_memory none offset m k l).0 l (map_memory none offset m k l).1 κ x
  unfolding map_memory map_if mmap_for bo_mmap kbase_bo_get_mmap_offset
  map_memory-IsTakenOver offset m l κ x z s = ground (arith, z, s)

  held-unmap_false :
      (m : DeviceMemory) (l : Log) (κ : Kind) (x : ℕ)
      → held (unmap_memory false m k l).1 κ x ≡ held l κ x - one mapping m.host κ x
  unfolding unmap_memory
  held-unmap_false m l κ x = omega arith

  module _ (heap : HeapLaw k) (used used' : ℕ) (l : Log) (m : DeviceMemory)
      (e : (allocate_memory dev i used k l).0 ≡ (vk_success, some m, used')) where
    -- In an address space with AUTO_VA, where the address heap answers 0 for failure only and the
    -- kernel makes a SAME_VA region when asked, a memory that was allocated, mapped and unmapped
    -- without a reservation holds its two objects and the address range of its binding, but
    -- neither a region nor a mapping.
    unmap_memory-map_memory :
        (offset a : ℕ) (m' : DeviceMemory) (κ : Kind) (x : ℕ)
        → (map_memory none offset m k (allocate_memory dev i used k l).1).0 ≡ (vk_success, a, m')
        → held
            (unmap_memory false m' k
              (map_memory none offset m k (allocate_memory dev i used k l).1).1).1
            κ
            x
          ≡ held l κ x + one memory m.self κ x + one memory m.bo.self κ x + range_of m.dev_addr κ x
    unmap_memory-map_memory offset a m' κ x f =
        let al = allocate_memory dev i used k l in
        let h =
          subst (λ r. IsAllocated r l al.1 κ x) e
            (allocate_memory-IsAllocated k heap κ x dev auto i used l) in
        let s = subst (λ r. IsSharing r al.1) e (allocate_memory-IsSharing used l) in
        let mp = map_memory none offset m k al.1 in
        let t =
          subst (λ r. IsTakenOver m r al.1 mp.1 κ x) f
            (map_memory-IsTakenOver offset m al.1 κ x h.0 s) in
        omega (arith, held-unmap_false m' mp.1 κ x, t.1, h.2)
