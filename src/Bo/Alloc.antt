-- ===== src/Bo/Alloc.antt =====
-- Allocation and import hold what the new object owns, and on failure nothing.
use pan_vk_kbase.Prelude.{
  ℕ, ◌+◌, ◌-◌, ◌*◌, ◌%◌, ◌^◌, ◌≤◌, ◌<◌, ◌≡◌, Bool, true, false, ◌||◌, Option, none, some, ◌==◌,
  arith, ap, inl, inr, Bool-cases,
}
use pan_vk_kbase.Flags.{MemFlags, BoFlags, no_bo_flags}
use pan_vk_kbase.Kernel.{Log, Kernel, Call, Reply, Out, ok, fail}
use pan_vk_kbase.Kernel.Ledger.{Kind, held, one, one_self, fd, memory, mapping}
use pan_vk_kbase.Device.{Device, Bo}
use pan_vk_kbase.Dmabuf.{import_flags, import_cpu, import_region, import_dmabuf}
use pan_vk_kbase.Bo.{
  bo_alloc_kbase, bo_alloc_dmabuf, bo_alloc_from, bo_alloc, bo_free, bo_import_fd,
}
use pan_vk_kbase.Bo.Owned.{owned_opt, held-bo_free}

abbrev IsSameVa : Reply → Type 0
IsSameVa (fail e) = Unit {0}
IsSameVa (ok o) = (o.flags.same_va || o.flags.need_mmap) ≡ true

abbrev IsUnmapped : Log → Reply → Type 0
IsUnmapped l (fail e) = Unit {0}
IsUnmapped l (ok o) = held l mapping o.value ≡ 0

-- What the code relies on: an import is a SAME_VA region (the kernel forces that on all but
-- executable memory, says the head of kbase_kmod.c), and mmap() places no mapping at the address
-- of another.
pub record Assumed (k : Kernel) : Type 0 where
  pub imports : (l : Log) (n : ℕ) (f : MemFlags) → IsSameVa (k l (Call.mem_import n f))
  pub maps : (l : Log) (n len : ℕ) → IsUnmapped l (k l (Call.mmap_dmabuf n len))

abbrev IsNot : ℕ → Reply → Type 0
IsNot a (fail e) = Unit {0}
IsNot a (ok o) = (o.value == a) ≡ false

ne_of_unmapped : (l : Log) (a : ℕ) (r : Reply) → IsUnmapped l r → 0 < held l mapping a → IsNot a r
ne_of_unmapped l a (fail e) u h = tt
ne_of_unmapped l a (ok o) u h = ground arith

module _ (d : Device) (vm : Option ℕ) (k : Kernel) where
  held-bo_alloc_kbase :
      (size : ℕ) (f : BoFlags) (l : Log) (κ : Kind) (x : ℕ)
      → held (bo_alloc_kbase d vm size f k l).1 κ x
        ≡ held l κ x + owned_opt (bo_alloc_kbase d vm size f k l).0.0 κ x
  unfolding bo_alloc_kbase
  held-bo_alloc_kbase size f l κ x = ground arith

  -- what the objects before the CPU mapping take
  abbrev got : Out → (self dmabuf gpu : ℕ) → Kind → ℕ → ℕ
  got o self dmabuf gpu κ x = one fd dmabuf κ x + one memory self κ x + one mapping gpu κ x

  held-import_cpu :
      (f : BoFlags) (ext : Bool) (self dmabuf : ℕ) (o : Out) (gpu : ℕ) (l : Log) (κ : Kind) (x : ℕ)
      → (o.flags.same_va || o.flags.need_mmap) ≡ true
      → IsNot gpu (k l (Call.mmap_dmabuf dmabuf (o.second * 4096 % 2 ^ 64)))
      → got o self dmabuf gpu κ x ≤ held l κ x
      → held (import_cpu d vm f ext self dmabuf o gpu k l).1 κ x
        ≡ held l κ x
          - got o self dmabuf gpu κ x
          + owned_opt (import_cpu d vm f ext self dmabuf o gpu k l).0.0 κ x
  unfolding import_cpu
  held-import_cpu f ext self dmabuf o gpu l κ x s n h = ground arith

module _ (d : Device) (vm : Option ℕ) (k : Kernel) (assumed : Assumed k) where
  held-import_cpu_assumed :
      (f : BoFlags) (ext : Bool) (self dmabuf : ℕ) (o : Out) (gpu : ℕ) (l : Log) (κ : Kind) (x : ℕ)
      → (o.flags.same_va || o.flags.need_mmap) ≡ true
      → 0 < held l mapping gpu
      → got d vm k o self dmabuf gpu κ x ≤ held l κ x
      → held (import_cpu d vm f ext self dmabuf o gpu k l).1 κ x
        ≡ held l κ x
          - got d vm k o self dmabuf gpu κ x
          + owned_opt (import_cpu d vm f ext self dmabuf o gpu k l).0.0 κ x
  held-import_cpu_assumed f ext self dmabuf o gpu l κ x s p h =
      held-import_cpu d vm k f ext self dmabuf o gpu l κ x s
        (ne_of_unmapped l gpu _ (assumed.maps l dmabuf (o.second * 4096 % 2 ^ 64)) p) h

  held-import_region :
      (f : BoFlags) (ext : Bool) (self dmabuf : ℕ) (l : Log) (κ : Kind) (x : ℕ)
      → one fd dmabuf κ x + one memory self κ x ≤ held l κ x
      → held (import_region d vm f ext self dmabuf k l).1 κ x
        ≡ held l κ x
          - (one fd dmabuf κ x + one memory self κ x)
          + owned_opt (import_region d vm f ext self dmabuf k l).0.0 κ x
  unfolding import_region
  held-import_region f ext self dmabuf l κ x h =
      let s : IsSameVa (k l (Call.mem_import dmabuf (import_flags f))) =
        assumed.imports l dmabuf (import_flags f) in
      grind (arith, held-import_cpu_assumed, one_self)

  held-import_dmabuf :
      (n : ℕ) (f : BoFlags) (ext : Bool) (l : Log) (κ : Kind) (x : ℕ)
      → held (import_dmabuf d vm n f ext k l).1 κ x
        ≡ held l κ x + owned_opt (import_dmabuf d vm n f ext k l).0.0 κ x
  unfolding import_dmabuf
  held-import_dmabuf n f ext l κ x = grind (arith, held-import_region)

module _ (d : Device) (k : Kernel) (assumed : Assumed k) where
  held-bo_alloc_dmabuf :
      (heap_fd size : ℕ) (f : BoFlags) (l : Log) (κ : Kind) (x : ℕ)
      → held (bo_alloc_dmabuf d heap_fd size f k l).1 κ x
        ≡ held l κ x + owned_opt (bo_alloc_dmabuf d heap_fd size f k l).0.0 κ x
  unfolding bo_alloc_dmabuf
  held-bo_alloc_dmabuf heap_fd size f l κ x = grind (arith, held-import_dmabuf d none k assumed)

  held-bo_alloc_from :
      (heap vm : Option ℕ) (size : ℕ) (f : BoFlags) (l : Log) (κ : Kind) (x : ℕ)
      → held (bo_alloc_from heap d vm size f k l).1 κ x
        ≡ held l κ x + owned_opt (bo_alloc_from heap d vm size f k l).0.0 κ x
  unfolding bo_alloc_from
  held-bo_alloc_from (some h) none size f l κ x =
      elim (Bool-cases (f.executable || f.alloc_on_fault || f.csf_event)) [
        | inl t ↦ rw t (held-bo_alloc_kbase d none k size f l κ x)
        | inr t ↦ rw t (held-bo_alloc_dmabuf h size f l κ x)
      ]
  held-bo_alloc_from none none size f l κ x = held-bo_alloc_kbase d none k size f l κ x
  held-bo_alloc_from (some h) (some vm) size f l κ x =
      held-bo_alloc_kbase d (some vm) k size f l κ x
  held-bo_alloc_from none (some vm) size f l κ x = held-bo_alloc_kbase d (some vm) k size f l κ x

  -- kbase_kmod_bo_alloc, through the dma-heap or not and under the assumptions on imports and
  -- mappings, holds on success exactly what the new object owns, and nothing more than before when
  -- it returns NULL.
  pub held-bo_alloc :
      (vm : Option ℕ) (size : ℕ) (f : BoFlags) (l : Log) (κ : Kind) (x : ℕ)
      → held (bo_alloc d vm size f k l).1 κ x
        ≡ held l κ x + owned_opt (bo_alloc d vm size f k l).0.0 κ x
  unfolding bo_alloc
  held-bo_alloc vm size f l κ x = held-bo_alloc_from d.dma_heap_fd vm size f l κ x

  -- kbase_kmod_bo_import_fd, under the assumptions on imports and mappings, holds on success
  -- exactly what the new object owns, and nothing more than before on failure.
  held-bo_import_fd :
      (n : ℕ) (l : Log) (κ : Kind) (x : ℕ)
      → held (bo_import_fd d n k l).1 κ x ≡ held l κ x + owned_opt (bo_import_fd d n k l).0.0 κ x
  unfolding bo_import_fd
  held-bo_import_fd n l κ x = held-import_dmabuf d none k assumed n no_bo_flags true l κ x

  -- Under the assumptions on imports and mappings, a buffer object that kbase_kmod_bo_alloc
  -- returned, once freed, leaves the process holding what it held before the allocation.
  pub bo_free-bo_alloc :
      (vm : Option ℕ) (size : ℕ) (f : BoFlags) (l : Log) (b : Bo)
      → (bo_alloc d vm size f k l).0.0 ≡ some b
      → (κ : Kind) (x : ℕ) → held (bo_free b k (bo_alloc d vm size f k l).1).1 κ x ≡ held l κ x
  bo_free-bo_alloc vm size f l b e κ x = ground (
    arith,
    held-bo_alloc vm size f l κ x,
    held-bo_free b k (bo_alloc d vm size f k l).1 κ x,
    ap (λ o. owned_opt o κ x) e,
  )
