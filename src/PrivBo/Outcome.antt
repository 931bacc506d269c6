-- ===== src/PrivBo/Outcome.antt =====
-- The two outcomes of a creation: a buffer of the size asked for at a new address, or nothing that
-- the memory allocator gave.
use pan_vk_kbase.Prelude.{
  ℕ, ◌+◌, ◌-◌, ◌≡◌, ◌≢◌, Bool, true, false, Option, none, some, ◌∷◌, ◌==◌, arith,
}
use pan_vk_kbase.Flags.{BoFlags}
use pan_vk_kbase.Kernel.{Kernel, Log, Call, Reply, ok, fail}
use pan_vk_kbase.Kernel.Ledger.{held, one, memory}
use pan_vk_kbase.Pan.{PanBo, kbase_bo_alloc, bo_put, kbase_bo_free, kbase_bo_get_mmap_offset}
use pan_vk_kbase.Pan.Space.{pan_bo_alloc, bind_type, pan_vm_bind}
use pan_vk_kbase.PrivBo.{
  PanvkDev, PrivBo, VkResult, vk_success, put_bo, bo_mmap, cpu_test, priv_va, create_tested,
  create_passed, create_unless_null, create_mapped, create_from, create_at, priv_bo_create,
}

-- A success has this address and object; a failure has no buffer, and both are freed.
abbrev IsEnd : (self : ℕ) → PanBo → VkResult × Option PrivBo → (before after : Log) → ℕ → Type 0
IsEnd self b (r, none) l l' x =
    (r ≢ vk_success)
    × (held l' memory x ≡ held l memory x - one memory b.self memory x - one memory self memory x)
IsEnd self b (r, some p) l l' x =
    (r ≡ vk_success) × (p.self ≡ self) × (p.bo ≡ b) × (held l' memory x ≡ held l memory x)

IsEnd-shift :
    (self : ℕ) (b : PanBo) (r : VkResult × Option PrivBo) (l0 l l' : Log) (x : ℕ)
    → held l memory x ≡ held l0 memory x
    → IsEnd self b r l l' x
    → IsEnd self b r l0 l' x
IsEnd-shift self b (r, none) l0 l l' x e h = (h.0, omega (arith, e, h.1))
IsEnd-shift self b (r, some p) l0 l l' x e h = (h.0, h.1, h.2, omega (arith, e, h.3))

abbrev IsAlloc : (size : ℕ) → Option PanBo → (before after : Log) → ℕ → Type 0
IsAlloc size none l l' x = held l' memory x ≡ held l memory x
IsAlloc size (some b) l l' x =
    (b.refcnt ≡ 1)
    × (b.size ≡ size)
    × (held l' memory x ≡ held l memory x + one memory b.self memory x)

-- A success has a buffer with this address, the size asked for, an object and memory that are held;
-- any other result has none, and nothing more is held than before.
abbrev pub IsOutcome :
    (self size : ℕ) → VkResult × Option PrivBo → (before after : Log) → ℕ → Type 0
IsOutcome self size (r, none) l l' x = (r ≢ vk_success) × (held l' memory x ≡ held l memory x)
IsOutcome self size (r, some p) l l' x =
    (r ≡ vk_success)
    × (p.self ≡ self)
    × (p.bo.size ≡ size)
    × (held l' memory x
        ≡ held l memory x + one memory p.self memory x + one memory p.bo.self memory x)

IsOutcome-of_end :
    (self size : ℕ) (b : PanBo) (r : VkResult × Option PrivBo) (l0 l l' : Log) (x : ℕ)
    → b.size ≡ size
    → held l memory x ≡ held l0 memory x + one memory self memory x + one memory b.self memory x
    → IsEnd self b r l l' x
    → IsOutcome self size r l0 l' x
IsOutcome-of_end self size b (r, none) l0 l l' x s e h = (h.0, omega (arith, e, h.1))
IsOutcome-of_end self size b (r, some p) l0 l l' x s e h = grind (arith, h, e, s)

-- the address that the memory allocator gave
abbrev pub self_of : Reply → ℕ
self_of (fail e) = 0
self_of (ok o) = o.value

module _ (dev : PanvkDev) (k : Kernel) (x : ℕ) where
  module _ (self : ℕ) (b : PanBo) (c : b.refcnt ≡ 1) where
    put_bo-IsEnd :
        (r : VkResult) (l0 l : Log)
        → r ≢ vk_success
        → held l memory x ≡ held l0 memory x
        → IsEnd self b (put_bo self b r k l).0 l0 (put_bo self b r k l).1 x
    unfolding put_bo bo_put kbase_bo_free
    put_bo-IsEnd r l0 l d h = ground (arith, d, h, c)

    create_tested-IsEnd :
        (host : ℕ) (l : Log)
        → IsEnd self b
            (create_tested dev self b host k l).0
            l
            (create_tested dev self b host k l).1
            x
    unfolding create_tested priv_va pan_vm_bind bind_type put_bo bo_put kbase_bo_free one
    create_tested-IsEnd host l = ground (arith, c)

    create_passed-IsEnd :
        (passed : Bool) (host : ℕ) (l0 l : Log)
        → held l memory x ≡ held l0 memory x
        → IsEnd self b
            (create_passed passed dev self b host k l).0
            l0
            (create_passed passed dev self b host k l).1
            x
    unfolding create_passed
    create_passed-IsEnd true host l0 l h =
        let t = create_tested dev self b host k l in
        IsEnd-shift self b t.0 l0 l t.1 x h (create_tested-IsEnd host l)
    create_passed-IsEnd false host l0 l h = put_bo-IsEnd _ l0 l (λ q. ground (arith, q)) h

    create_unless_null-IsEnd :
        (is_null : Bool) (host : ℕ) (l0 l : Log)
        → held l memory x ≡ held l0 memory x
        → IsEnd self b
            (create_unless_null is_null dev self b host k l).0
            l0
            (create_unless_null is_null dev self b host k l).1
            x
    unfolding create_unless_null cpu_test
    create_unless_null-IsEnd true host l0 l h = put_bo-IsEnd _ l0 l (λ q. ground (arith, q)) h
    create_unless_null-IsEnd false host l0 l h =
        let t = cpu_test host b.size k l in create_passed-IsEnd t.0 host l0 t.1 (ground (arith, h))

    create_mapped-IsEnd :
        (host : Option ℕ) (l0 l : Log)
        → held l memory x ≡ held l0 memory x
        → IsEnd self b
            (create_mapped dev self b host k l).0
            l0
            (create_mapped dev self b host k l).1
            x
    unfolding create_mapped
    create_mapped-IsEnd none l0 l h = put_bo-IsEnd _ l0 l (λ q. ground (arith, q)) h
    create_mapped-IsEnd (some host) l0 l h = create_unless_null-IsEnd (host == 0) host l0 l h

  held-bo_mmap : (b : PanBo) (l : Log) → held (bo_mmap b k l).1 memory x ≡ held l memory x
  unfolding bo_mmap kbase_bo_get_mmap_offset one
  held-bo_mmap b l = ground arith

  pan_bo_alloc-IsAlloc :
      (size : ℕ) (f : BoFlags) (l : Log)
      → IsAlloc size (pan_bo_alloc size f k l).0 l (pan_bo_alloc size f k l).1 x
  unfolding pan_bo_alloc kbase_bo_alloc one
  pan_bo_alloc-IsAlloc size f l = ground arith

  create_from-IsOutcome :
      (self size : ℕ) (b : Option PanBo) (l0 l l' : Log)
      → held l memory x ≡ held l0 memory x + one memory self memory x
      → IsAlloc size b l l' x
      → IsOutcome self size (create_from dev self b k l').0 l0 (create_from dev self b k l').1 x
  unfolding create_from
  create_from-IsOutcome self size none l0 l l' h a = ground (arith, h, a)
  create_from-IsOutcome self size (some b) l0 l l' h a =
      let m = bo_mmap b k l' in
      let c = create_mapped dev self b m.0 k m.1 in
      IsOutcome-of_end self size b c.0 l0 l' c.1 x a.1 (omega arith)
        (create_mapped-IsEnd self b a.0 m.0 l' m.1 (held-bo_mmap b l'))

  create_at-IsOutcome :
      (r : Reply) (size : ℕ) (f : BoFlags) (l : Log)
      → let l1 : Log = (Call.alloc, r) ∷ l in
        IsOutcome
          (self_of r)
          size
          (create_at r dev size f k l1).0
          l
          (create_at r dev size f k l1).1
          x
  unfolding create_at
  create_at-IsOutcome (fail e) size f l = (λ q. ground (arith, q), omega arith)
  create_at-IsOutcome (ok p) size f l =
      let l1 : Log = (Call.alloc, ok p) ∷ l in
      let b = pan_bo_alloc size (record f { no_mmap = false }) k l1 in
      create_from-IsOutcome p.value size b.0 l l1 b.1 (omega arith)
        (pan_bo_alloc-IsAlloc size (record f { no_mmap = false }) l1)

  -- A creation returns VK_SUCCESS with a buffer of the size asked for, at the address that the
  -- memory allocator gave first, with its two objects held; or it returns another result at
  -- whichever step, gives no buffer, and leaves no object of the memory allocator behind.
  pub priv_bo_create-IsOutcome :
      (size : ℕ) (f : BoFlags) (l : Log)
      → IsOutcome
          (self_of (k l Call.alloc))
          size
          (priv_bo_create dev size f k l).0
          l
          (priv_bo_create dev size f k l).1
          x
  unfolding priv_bo_create
  priv_bo_create-IsOutcome size f l = create_at-IsOutcome (k l Call.alloc) size f l
