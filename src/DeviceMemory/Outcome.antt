-- ===== src/DeviceMemory/Outcome.antt =====
-- The two outcomes of panvk_AllocateMemory, in address spaces with and without AUTO_VA, and the
-- account of how much of the heap is used.
use pan_vk_kbase.Prelude.{
  ℕ, ◌+◌, ◌%◌, ◌^◌, ◌<◌, ◌≡◌, ◌≢◌, refl, subst, Bool, true, false, Option, none, some, ◌∷◌, ◌==◌,
  not, ◌&&◌, arith,
}
use pan_vk_kbase.Flags.{BoFlags}
use pan_vk_kbase.Kernel.{Kernel, Log, Call, Reply, ok, fail}
use pan_vk_kbase.Kernel.Ledger.{held, one, memory}
use pan_vk_kbase.Pan.{PanBo, kbase_bo_alloc, bo_put, kbase_bo_free}
use pan_vk_kbase.Pan.Space.{pan_bo_alloc, bind_type, pan_vm_bind}
use pan_vk_kbase.PrivBo.{VkResult, vk_success, vk_error_invalid_external_handle}
use pan_vk_kbase.DeviceMemory.{
  MemDev, DeviceMemory, AllocateInfo, Allocated, as_alloc, as_alloc_fixed_address, choose_va,
  memory_va, allocate_at, allocate_from, allocate_object, memory_flags, allocate_object_if,
  allocate_unless, allocate_memory, free_memory,
}

-- A success has a memory whose object has this size, the size is accounted for and the two are held;
-- any other result has none, the account is as before and nothing of the memory allocator is left.
abbrev pub IsOutcome : (size used : ℕ) → Allocated → (before after : Log) → ℕ → Type 0
IsOutcome size used (r, none, u) l l' x =
    (r ≢ vk_success) × (u ≡ used) × (held l' memory x ≡ held l memory x)
IsOutcome size used (r, some m, u) l l' x =
    (r ≡ vk_success)
    × (m.bo.size ≡ size)
    × (u ≡ (used + size) % 2 ^ 64)
    × (held l' memory x
        ≡ held l memory x + one memory m.self memory x + one memory m.bo.self memory x)

abbrev IsMade : (size : ℕ) → Option PanBo → (before after : Log) → ℕ → Type 0
IsMade size none l l' x = held l' memory x ≡ held l memory x
IsMade size (some b) l l' x =
    (b.refcnt ≡ 1)
    × (b.size ≡ size)
    × (held l' memory x ≡ held l memory x + one memory b.self memory x)

module _ (k : Kernel) (x : ℕ) (dev : MemDev) (i : AllocateInfo) (used : ℕ) where
  pan_bo_alloc-IsMade :
      (size : ℕ) (f : BoFlags) (l : Log)
      → IsMade size (pan_bo_alloc size f k l).0 l (pan_bo_alloc size f k l).1 x
  unfolding pan_bo_alloc kbase_bo_alloc one
  pan_bo_alloc-IsMade size f l = ground arith

  held-choose_va :
      (replay no_capture : Bool) (capture size : ℕ) (l : Log)
      → held (choose_va replay no_capture dev capture size k l).1 memory x ≡ held l memory x
  unfolding choose_va as_alloc as_alloc_fixed_address one
  held-choose_va false n c size l = ground arith
  held-choose_va true true c size l = ground arith
  held-choose_va true false c size l = ground arith

  held-memory_va :
      (auto_va : Bool) (size : ℕ) (l : Log)
      → held (memory_va auto_va dev i size k l).1 memory x ≡ held l memory x
  unfolding memory_va
  held-memory_va true size l = refl
  held-memory_va false size l =
      held-choose_va i.replay (i.capture_address == 0) i.capture_address size l

  allocate_at-IsOutcome :
      (no_va : Bool) (self start : ℕ) (b : PanBo) (l0 l : Log)
      → b.refcnt ≡ 1
      → held l memory x ≡ held l0 memory x + one memory self memory x + one memory b.self memory x
      → IsOutcome b.size used
          (allocate_at no_va dev self b i start used k l).0
          l0
          (allocate_at no_va dev self b i start used k l).1
          x
  unfolding allocate_at bo_put kbase_bo_free pan_vm_bind bind_type one
  allocate_at-IsOutcome true self start b l0 l r h = ground (arith, r, h)
  allocate_at-IsOutcome false self start b l0 l r h = ground (arith, r, h)

  allocate_from-IsOutcome :
      (self size : ℕ) (r : VkResult) (b : Option PanBo) (l0 l l' : Log)
      → r ≢ vk_success
      → held l memory x ≡ held l0 memory x + one memory self memory x
      → IsMade size b l l' x
      → IsOutcome size used
          (allocate_from dev self r b i used k l').0
          l0
          (allocate_from dev self r b i used k l').1
          x
  unfolding allocate_from
  allocate_from-IsOutcome self size r none l0 l l' d h m = ground (arith, d, h, m)
  allocate_from-IsOutcome self size r (some b) l0 l l' d h m =
      let v = memory_va dev.vm.auto_va dev i b.size k l' in
      let no_va = not dev.vm.auto_va && (v.0 == 0) in
      let a = allocate_at no_va dev self b i v.0 used k v.1 in
      subst (λ s. IsOutcome s used a.0 l0 a.1 x) m.1
        (allocate_at-IsOutcome no_va self v.0 b l0 v.1 m.0
          (omega (arith, held-memory_va dev.vm.auto_va b.size l')))

  allocate_object-IsOutcome :
      (fd : Option ℕ) (self : ℕ) (l0 l : Log)
      → held l memory x ≡ held l0 memory x + one memory self memory x
      → IsOutcome i.size used
          (allocate_object fd dev self i used k l).0
          l0
          (allocate_object fd dev self i used k l).1
          x
  unfolding allocate_object
  allocate_object-IsOutcome (some fd) self l0 l h =
      allocate_from-IsOutcome self i.size vk_error_invalid_external_handle none l0 l l
        (λ q. ground (arith, q)) h refl
  allocate_object-IsOutcome none self l0 l h =
      let b = pan_bo_alloc i.size (memory_flags dev i) k l in
      allocate_from-IsOutcome self i.size _ b.0 l0 l b.1 (λ q. ground (arith, q)) h
        (pan_bo_alloc-IsMade i.size (memory_flags dev i) l)

  allocate_object_if-IsOutcome :
      (r : Reply) (l : Log)
      → let l1 : Log = (Call.alloc, r) ∷ l in
        IsOutcome i.size used
          (allocate_object_if r dev i used k l1).0
          l
          (allocate_object_if r dev i used k l1).1
          x
  unfolding allocate_object_if
  allocate_object_if-IsOutcome (fail e) l = (λ q. ground (arith, q), refl, omega arith)
  allocate_object_if-IsOutcome (ok o) l =
      allocate_object-IsOutcome i.import_fd o.value l ((Call.alloc, ok o) ∷ l) (omega arith)

  allocate_unless-IsOutcome :
      (unknown : Bool) (l : Log)
      → IsOutcome i.size used
          (allocate_unless unknown dev i used k l).0
          l
          (allocate_unless unknown dev i used k l).1
          x
  unfolding allocate_unless
  allocate_unless-IsOutcome true l = (λ q. ground (arith, q), refl, refl)
  allocate_unless-IsOutcome false l = allocate_object_if-IsOutcome (k l Call.alloc) l

  -- panvk_AllocateMemory, in an address space of either kind, returns VK_SUCCESS with a memory of
  -- the size asked for, which holds its two objects and is added to the account of the heap; or it
  -- returns another result at whichever step, gives no memory, leaves the account alone and no
  -- object of the memory allocator behind.
  pub allocate_memory-IsOutcome :
      (l : Log)
      → IsOutcome i.size used
          (allocate_memory dev i used k l).0
          l
          (allocate_memory dev i used k l).1
          x
  unfolding allocate_memory
  allocate_memory-IsOutcome l = allocate_unless-IsOutcome i.exports_unknown l

  module _ (m : DeviceMemory) (used' : ℕ) (l : Log)
      (e : (allocate_memory dev i used k l).0 ≡ (vk_success, some m, used')) where
    -- Freeing a memory takes its size, below 2 ^ 64, off the account again.
    free_memory-account :
        used < 2 ^ 64 → i.size < 2 ^ 64 → (n : Log) → (free_memory dev m used' k n).0 ≡ used
    unfolding free_memory
    free_memory-account h s n =
        let a =
          subst (λ r. IsOutcome i.size used r l (allocate_memory dev i used k l).1 x) e
            (allocate_memory-IsOutcome l) in
        omega (arith, a.1, a.2)
