-- ===== src/PrivBo/Lifetime.antt =====
-- What a private buffer holds, on every way out of its creation, and what its reference count makes
-- of its end.
use pan_vk_kbase.Prelude.{
  ℕ, ◌+◌, ◌-◌, ◌^◌, ◌≡◌, subst, Bool, true, false, Option, none, some, ◌∷◌, ◌==◌, if◌then◌else◌,
  arith,
}
use pan_vk_kbase.Flags.{BoFlags}
use pan_vk_kbase.Kernel.{Kernel, Log, Call, Reply, ok, fail}
use pan_vk_kbase.Kernel.Ledger.{Kind, held, one, memory, region, range, mapping, same_va_at}
use pan_vk_kbase.Pan.{
  PanBo, kbase_bo_alloc, bo_put, kbase_bo_free, kbase_bo_get_mmap_offset, bo_req,
}
use pan_vk_kbase.Pan.Space.{map_alignment, pan_bo_alloc, bind_type, pan_vm_bind}
use pan_vk_kbase.Bo.Owned.{one_opt}
use pan_vk_kbase.Pan.Binding.{HeapLaw}
use pan_vk_kbase.PrivBo.{
  PanvkDev, PrivBo, put_bo, VkResult, vk_success, bo_mmap, cpu_test, priv_va, create_tested,
  create_passed, create_unless_null, create_mapped, create_from, create_at, priv_bo_create,
  priv_bo_destroy, priv_bo_ref, priv_bo_unref,
}

abbrev IsSameVa : Reply → Type 0
IsSameVa (fail e) = Unit {0}
IsSameVa (ok o) = o.flags.same_va ≡ true

-- The kernel makes a SAME_VA region where it is asked for one.
abbrev pub SameVaLaw : Kernel → Type 0
SameVaLaw k = (l : Log) (size : ℕ) → IsSameVa (k l (Call.mem_alloc (bo_req size)))

-- A fresh object: one reference, its memory and its region held, the region a SAME_VA one that may
-- be mapped.
abbrev IsMade : Option PanBo → (before after : Log) → Kind → ℕ → Type 0
IsMade none l l' κ x = Unit {0}
IsMade (some b) l l' κ x =
    (b.refcnt ≡ 1)
    × (same_va_at l' b.priv ≡ true)
    × (held l' κ x ≡ held l κ x + one memory b.self κ x + one region b.priv κ x)

-- Its mapping, which takes the region over.
abbrev IsMapped : PanBo → Option ℕ → (before after : Log) → Kind → ℕ → Type 0
IsMapped b none l l' κ x = Unit {0}
IsMapped b (some host) l l' κ x =
    held l' κ x ≡ held l κ x + one mapping host κ x - one region b.priv κ x

abbrev pub range_of : ℕ → Kind → ℕ → ℕ
range_of start κ x = if start == 0 then 0 else one range start κ x

-- What a private buffer with this memory, object and mapping is, and the range that it took.
abbrev IsBound :
    (self : ℕ)
    → PanBo
    → (host : ℕ) → VkResult × Option PrivBo
    → (before after : Log) → Kind
    → ℕ
    → Type 0
IsBound self b host (r, none) l l' κ x = Unit {0}
IsBound self b host (r, some p) l l' κ x =
    (p.self ≡ self)
    × (p.bo ≡ b)
    × (p.host ≡ some host)
    × (p.refcnt ≡ 0)
    × (held l' κ x ≡ held l κ x + range_of p.dev_addr κ x)

-- What a private buffer holds.
abbrev pub owned_priv : PrivBo → Kind → ℕ → ℕ
owned_priv p κ x = one memory p.self κ x + one memory p.bo.self κ x + one_opt mapping p.host κ x

abbrev IsCreated : VkResult × Option PrivBo → (before after : Log) → Kind → ℕ → Type 0
IsCreated (r, none) l l' κ x = Unit {0}
IsCreated (r, some p) l l' κ x =
    (p.refcnt ≡ 0)
    × (p.bo.refcnt ≡ 1)
    × (held l' κ x ≡ held l κ x + owned_priv p κ x + range_of p.dev_addr κ x)

IsBound-shift :
    (self : ℕ) (b : PanBo) (host : ℕ) (r : VkResult × Option PrivBo) (l0 l l' : Log) (κ : Kind)
    (x : ℕ)
    → held l κ x ≡ held l0 κ x
    → IsBound self b host r l l' κ x
    → IsBound self b host r l0 l' κ x
IsBound-shift self b host (r, none) l0 l l' κ x e h = tt
IsBound-shift self b host (r, some p) l0 l l' κ x e h = ground (arith, e, h)

IsCreated_of_bound :
    (self : ℕ) (b : PanBo) (host : ℕ) (r : VkResult × Option PrivBo) (l0 l l' : Log) (κ : Kind)
    (x : ℕ)
    → b.refcnt ≡ 1
    → held l κ x ≡ held l0 κ x + one memory self κ x + one memory b.self κ x + one mapping host κ x
    → IsBound self b host r l l' κ x
    → IsCreated r l0 l' κ x
IsCreated_of_bound self b host (r, none) l0 l l' κ x c e h = tt
IsCreated_of_bound self b host (r, some p) l0 l l' κ x c e h = grind (arith, e, h, c)

module _ (k : Kernel) (same : SameVaLaw k) (heap : HeapLaw k) where
  pan_bo_alloc-IsMade :
      (size : ℕ) (f : BoFlags) (l : Log) (κ : Kind) (x : ℕ)
      → IsMade (pan_bo_alloc size f k l).0 l (pan_bo_alloc size f k l).1 κ x
  unfolding pan_bo_alloc kbase_bo_alloc
  pan_bo_alloc-IsMade size f l κ x = ground (arith, same l size)

  bo_mmap-IsMapped :
      (b : PanBo) (l : Log) (κ : Kind) (x : ℕ)
      → same_va_at l b.priv ≡ true
      → IsMapped b (bo_mmap b k l).0 l (bo_mmap b k l).1 κ x
  unfolding bo_mmap kbase_bo_get_mmap_offset
  bo_mmap-IsMapped b l κ x s = ground arith

  held-cpu_test :
      (host size : ℕ) (l : Log) (κ : Kind) (x : ℕ)
      → held (cpu_test host size k l).1 κ x ≡ held l κ x
  unfolding cpu_test
  held-cpu_test host size l κ x = ground arith

  module _ (dev : PanvkDev) (auto : dev.vm.auto_va ≡ true) where
    create_tested-IsBound :
        (self : ℕ) (b : PanBo) (host : ℕ) (l : Log) (κ : Kind) (x : ℕ)
        → IsBound self b host
            (create_tested dev self b host k l).0
            l
            (create_tested dev self b host k l).1
            κ
            x
    unfolding create_tested priv_va pan_vm_bind bind_type
    create_tested-IsBound self b host l κ x =
        ground (arith, heap l dev.vm.self b.size (map_alignment b.size))

    module _ (self : ℕ) (b : PanBo) (host : ℕ) where
      create_passed-IsBound :
          (passed : Bool) (l : Log) (κ : Kind) (x : ℕ)
          → IsBound self b host
              (create_passed passed dev self b host k l).0
              l
              (create_passed passed dev self b host k l).1
              κ
              x
      unfolding create_passed put_bo
      create_passed-IsBound true l κ x = create_tested-IsBound self b host l κ x
      create_passed-IsBound false l κ x = tt

      create_unless_null-IsBound :
          (is_null : Bool) (l : Log) (κ : Kind) (x : ℕ)
          → IsBound self b host
              (create_unless_null is_null dev self b host k l).0
              l
              (create_unless_null is_null dev self b host k l).1
              κ
              x
      unfolding create_unless_null put_bo
      create_unless_null-IsBound true l κ x = tt
      create_unless_null-IsBound false l κ x =
          let t = cpu_test host b.size k l in
          IsBound-shift self b host (create_passed t.0 dev self b host k t.1).0 l t.1
            (create_passed t.0 dev self b host k t.1).1 κ x (held-cpu_test host b.size l κ x)
            (create_passed-IsBound t.0 t.1 κ x)

    create_mapped-IsCreated :
        (self : ℕ) (b : PanBo) (host : Option ℕ) (l0 l l' : Log) (κ : Kind) (x : ℕ)
        → b.refcnt ≡ 1
        → held l κ x
          ≡ held l0 κ x + one memory self κ x + one memory b.self κ x + one region b.priv κ x
        → IsMapped b host l l' κ x
        → IsCreated
            (create_mapped dev self b host k l').0
            l0
            (create_mapped dev self b host k l').1
            κ
            x
    unfolding create_mapped put_bo
    create_mapped-IsCreated self b none l0 l l' κ x r h m = tt
    create_mapped-IsCreated self b (some host) l0 l l' κ x r h m =
        let c = create_unless_null (host == 0) dev self b host k l' in
        IsCreated_of_bound self b host c.0 l0 l' c.1 κ x r (omega arith)
          (create_unless_null-IsBound self b host (host == 0) l' κ x)

    create_from-IsCreated :
        (self : ℕ) (b : Option PanBo) (l0 l l' : Log) (κ : Kind) (x : ℕ)
        → held l κ x ≡ held l0 κ x + one memory self κ x
        → IsMade b l l' κ x
        → IsCreated (create_from dev self b k l').0 l0 (create_from dev self b k l').1 κ x
    unfolding create_from
    create_from-IsCreated self none l0 l l' κ x h m = tt
    create_from-IsCreated self (some b) l0 l l' κ x h m =
        create_mapped-IsCreated self b (bo_mmap b k l').0 l0 l' (bo_mmap b k l').1 κ x m.0
          (omega arith) (bo_mmap-IsMapped b l' κ x m.1)

    create_at-IsCreated :
        (r : Reply) (size : ℕ) (f : BoFlags) (l : Log) (κ : Kind) (x : ℕ)
        → let l1 : Log = (Call.alloc, r) ∷ l in
          IsCreated (create_at r dev size f k l1).0 l (create_at r dev size f k l1).1 κ x
    unfolding create_at
    create_at-IsCreated (fail e) size f l κ x = tt
    create_at-IsCreated (ok p) size f l κ x =
        let l1 : Log = (Call.alloc, ok p) ∷ l in
        let b = pan_bo_alloc size (record f { no_mmap = false }) k l1 in
        create_from-IsCreated p.value b.0 l l1 b.1 κ x (omega arith)
          (pan_bo_alloc-IsMade size (record f { no_mmap = false }) l1 κ x)

    -- A creation that succeeds gives a buffer with count 0 that owns its object, its mapping and the
    -- range that its binding took.
    priv_bo_create-IsCreated :
        (size : ℕ) (f : BoFlags) (l : Log) (κ : Kind) (x : ℕ)
        → IsCreated (priv_bo_create dev size f k l).0 l (priv_bo_create dev size f k l).1 κ x
    unfolding priv_bo_create
    priv_bo_create-IsCreated size f l κ x = create_at-IsCreated (k l Call.alloc) size f l κ x

    held-priv_bo_destroy :
        (p : PrivBo) (l : Log) (κ : Kind) (x : ℕ)
        → p.bo.refcnt ≡ 1
        → held (priv_bo_destroy dev p k l).1 κ x ≡ held l κ x - owned_priv p κ x
    unfolding priv_bo_destroy pan_vm_bind bind_type bo_put kbase_bo_free
    held-priv_bo_destroy p l κ x r = ground (arith, r, auto)

    module _ (size : ℕ) (f : BoFlags) (l : Log) (p : PrivBo)
        (e : (priv_bo_create dev size f k l).0 ≡ (vk_success, some p)) where
      created_priv :
          (κ : Kind) (x : ℕ)
          → IsCreated (vk_success, some p) l (priv_bo_create dev size f k l).1 κ x
      created_priv κ x =
          subst (λ r. IsCreated r l (priv_bo_create dev size f k l).1 κ x) e
            (priv_bo_create-IsCreated size f l κ x)

      -- In an address space with AUTO_VA, where the kernel makes a SAME_VA region when asked and
      -- the address heap answers 0 for failure only, a private buffer that was created and then
      -- destroyed leaves the process holding what it held before, and the address range that its
      -- binding took.
      pub priv_bo_destroy-priv_bo_create :
          (κ : Kind) (x : ℕ)
          → held (priv_bo_destroy dev p k (priv_bo_create dev size f k l).1).1 κ x
            ≡ held l κ x + range_of p.dev_addr κ x
      priv_bo_destroy-priv_bo_create κ x =
          let c = created_priv κ x in
          omega (arith, held-priv_bo_destroy p (priv_bo_create dev size f k l).1 κ x c.1)

      -- Under the same assumptions, giving up the reference of a new private buffer makes no call
      -- and leaves the buffer, with a count of 2 ^ 64 - 1.
      priv_bo_unref-priv_bo_create :
          (m : Log) → priv_bo_unref dev p k m ≡ (some (record p { refcnt = 2 ^ 64 - 1 }), m)
      unfolding priv_bo_unref
      priv_bo_unref-priv_bo_create m = ground (arith, created_priv memory 0)

      -- A reference that is taken first makes the same call destroy the buffer.
      pub priv_bo_unref-priv_bo_ref :
          (m : Log)
          → priv_bo_unref dev (priv_bo_ref p) k m
            ≡ (none, (priv_bo_destroy dev (priv_bo_ref p) k m).1)
      unfolding priv_bo_unref priv_bo_ref
      priv_bo_unref-priv_bo_ref m = ground (arith, created_priv memory 0)
