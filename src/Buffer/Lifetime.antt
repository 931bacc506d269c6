-- ===== src/Buffer/Lifetime.antt =====
-- What a buffer holds from its creation to its end.
use pan_vk_kbase.Prelude.{
  ℕ, ◌+◌, ◌-◌, ◌^◌, ◌<◌, ◌≡◌, ◌≢◌, ◌⊎◌, ◌∙◌, sym, inl, inr, refl, subst, Bool, true, false, ◌||◌,
  Option, none, some, ◌∷◌, ltb, ◌==◌, if◌then◌else◌, arith,
}
use pan_vk_kbase.Kernel.{Kernel, Log, Call, Reply, ok, fail, no_out}
use pan_vk_kbase.Kernel.Ledger.{Kind, held, one, memory, range, region}
use pan_vk_kbase.Pan.{PanBo}
use pan_vk_kbase.Pan.Space.{bind_type, pan_vm_bind}
use pan_vk_kbase.Pan.Sparse.Held.{HasDummySize, kept_dummy, IsLeft, IsBound, bind_sparse-IsBound}
use pan_vk_kbase.PrivBo.{vk_success}
use pan_vk_kbase.DeviceMemory.{as_alloc, as_free}
use pan_vk_kbase.Buffer.{
  BufferDev, BufferInfo, Buffer, sparse_size, max_buffer_size, Created, map_sparse, create_if_bound,
  create_sparse_at, create_bound, create_sized, create_object, create_buffer, unbind_sparse,
  destroy_buffer,
}

abbrev IsInside : Reply → Type 0
IsInside (fail e) = Unit {0}
IsInside (ok o) = (0 < o.value) × (o.value < 2 ^ 64 - 1)

-- util_vma_heap_alloc() gives an address inside the heap, which ends below 2 ^ 64 - 1, or 0.
abbrev pub InsideLaw : Kernel → Type 0
InsideLaw k =
    (l : Log) (heap size alignment : ℕ) → IsInside (k l (Call.vma_alloc heap size alignment))

-- what a buffer holds
abbrev pub owned_buffer : Buffer → Kind → ℕ → ℕ
owned_buffer b κ x =
    one memory b.self κ x + (if b.info.sparse_binding then one range b.device_address κ x else 0)

-- Nothing is left of a failure, or, where there was no dummy object, the region of one of which the
-- rest could not be made.
abbrev pub IsUndone : Option PanBo → (before after : Log) → Kind → ℕ → Type 0
IsUndone dummy l l' κ x =
    (held l' κ x ≡ held l κ x)
    ⊎ ((dummy ≡ none) × ((y : ℕ) × (held l' κ x ≡ held l κ x + one region y κ x)))

-- A success has a buffer, which holds this much beside a dummy object that is new; any other result
-- has none, and the dummy object is as it was.
abbrev pub IsOutcome : Option PanBo → Created → (before after : Log) → Kind → ℕ → Type 0
IsOutcome dummy (r, none, dev') l l' κ x =
    (r ≢ vk_success) × (dev'.mem.vm.sparse_dummy ≡ dummy) × IsUndone dummy l l' κ x
IsOutcome dummy (r, some b, dev') l l' κ x =
    (r ≡ vk_success)
    × HasDummySize dev'.mem.vm.sparse_dummy
    × (held l' κ x
        ≡ held l κ x + owned_buffer b κ x + kept_dummy dummy dev'.mem.vm.sparse_dummy κ x)

kept_dummy_same : (d : Option PanBo) (κ : Kind) (x : ℕ) → kept_dummy d d κ x ≡ 0
kept_dummy_same none κ x = refl
kept_dummy_same (some b) κ x = refl

-- A failure that gives back what was held besides.
IsUndone-of_left :
    (l0 m l l' : Log) (κ : Kind) (x own : ℕ)
    → held m κ x ≡ held l0 κ x + own
    → held l' κ x ≡ held l κ x - own
    → IsLeft m l κ x
    → IsUndone none l0 l' κ x
IsUndone-of_left l0 m l l' κ x own e f (inl h) = inl (omega (arith, e, f, h))
IsUndone-of_left l0 m l l' κ x own e f (inr (y, h)) = inr (refl, (y, omega (arith, e, f, h)))

module _ (k : Kernel) (κ : Kind) (x : ℕ) where
  map_sparse-IsBound :
      (residency : Bool) (dev : BufferDev) (address size : ℕ) (l : Log)
      → HasDummySize dev.mem.vm.sparse_dummy
      → address < 2 ^ 64 - 1
      → let r = map_sparse residency dev address size k l in
        IsBound k κ x dev.mem.vm.sparse_dummy r.0.1.mem.vm.sparse_dummy r.0.0 l r.1
  unfolding map_sparse
  map_sparse-IsBound false dev a size l s h =
      (s, omega (arith, kept_dummy_same dev.mem.vm.sparse_dummy κ x))
  map_sparse-IsBound true dev a size l s h = bind_sparse-IsBound k κ x dev.mem.vm a size l s h

  held-create_failed :
      (dev' : BufferDev) (self : ℕ) (i : BufferInfo) (a : ℕ) (l : Log)
      → held (create_if_bound false dev' self i a k l).1 κ x
        ≡ held l κ x - (one memory self κ x + one range a κ x)
  unfolding create_if_bound as_free
  held-create_failed dev' self i a l = ground arith

  create_if_bound-IsOutcome :
      (is_bound : Bool) (dummy : Option PanBo) (dev' : BufferDev) (self : ℕ) (i : BufferInfo)
      (a : ℕ) (l0 m l : Log)
      → i.sparse_binding ≡ true
      → held m κ x ≡ held l0 κ x + (one memory self κ x + one range a κ x)
      → IsBound k κ x dummy dev'.mem.vm.sparse_dummy is_bound m l
      → let r = create_if_bound is_bound dev' self i a k l in IsOutcome dummy r.0 l0 r.1 κ x
  unfolding create_if_bound as_free
  create_if_bound-IsOutcome true dummy dev' self i a l0 m l s e b =
      (refl, b.0, rw s (omega (arith, e, b.1)))
  create_if_bound-IsOutcome false dummy dev' self i a l0 m l s e b =
      let l' : Log = (create_if_bound false dev' self i a k l).1 in
      let own = one memory self κ x + one range a κ x in
      (
        λ q. ground (arith, q),
        b.1 ∙ sym b.0,
        subst (λ (d : Option PanBo). IsUndone d l0 l' κ x) (sym b.0)
            (IsUndone-of_left l0 m l l' κ x own e (held-create_failed dev' self i a l) b.2),
      )

  module _ (inside : InsideLaw k) (dev : BufferDev) (size2m : HasDummySize dev.mem.vm.sparse_dummy)
      (i : BufferInfo) where
    create_sparse_at-IsOutcome :
        (no_va : Bool) (self a : ℕ) (l0 l : Log)
        → (a == 0) ≡ no_va
        → i.sparse_binding ≡ true
        → a < 2 ^ 64 - 1
        → held l κ x ≡ held l0 κ x + one memory self κ x + (if a == 0 then 0 else one range a κ x)
        → let r = create_sparse_at no_va dev self i a k l in
          IsOutcome dev.mem.vm.sparse_dummy r.0 l0 r.1 κ x
    unfolding create_sparse_at
    create_sparse_at-IsOutcome true self a l0 l z s h e =
        (λ q. ground (arith, q), refl, inl (ground (arith, z, e)))
    create_sparse_at-IsOutcome false self a l0 l z s h e =
        let r =
          map_sparse (i.sparse_residency || dev.force_blackhole) dev a (sparse_size dev i.size) k
            l in
        create_if_bound-IsOutcome r.0.0 dev.mem.vm.sparse_dummy r.0.1 self i a l0 l r.1 s
          (ground (arith, z, e))
          (map_sparse-IsBound (i.sparse_residency || dev.force_blackhole) dev a
            (sparse_size dev i.size) l size2m h)

    as_alloc-IsTaken :
        (heap size alignment : ℕ) (l : Log)
        → let r = as_alloc heap size alignment k l in
          (r.0 < 2 ^ 64 - 1)
          × (held r.1 κ x ≡ held l κ x + (if r.0 == 0 then 0 else one range r.0 κ x))
    unfolding as_alloc
    as_alloc-IsTaken heap size alignment l =
        ground (arith, inside ((Call.lock, ok no_out) ∷ l) heap size alignment)

    create_bound-IsOutcome :
        (sparse : Bool) (self : ℕ) (l0 l : Log)
        → i.sparse_binding ≡ sparse
        → held l κ x ≡ held l0 κ x + one memory self κ x
        → let r = create_bound sparse dev self i k l in
          IsOutcome dev.mem.vm.sparse_dummy r.0 l0 r.1 κ x
    unfolding create_bound
    create_bound-IsOutcome false self l0 l s h =
        (refl, size2m, rw s (omega (arith, h, kept_dummy_same dev.mem.vm.sparse_dummy κ x)))
    create_bound-IsOutcome true self l0 l s h =
        let size = sparse_size dev i.size in
        let a = as_alloc dev.mem.heap size (dev.mem.choose_alignment size) k l in
        let t = as_alloc-IsTaken dev.mem.heap size (dev.mem.choose_alignment size) l in
        create_sparse_at-IsOutcome (a.0 == 0) self a.0 l0 a.1 refl s t.0 (omega (arith, t.1, h))

    create_sized-IsOutcome :
        (too_large : Bool) (self : ℕ) (l0 l : Log)
        → held l κ x ≡ held l0 κ x + one memory self κ x
        → let r = create_sized too_large dev self i k l in
          IsOutcome dev.mem.vm.sparse_dummy r.0 l0 r.1 κ x
    unfolding create_sized
    create_sized-IsOutcome true self l0 l h =
        (λ q. ground (arith, q), refl, inl (ground (arith, h)))
    create_sized-IsOutcome false self l0 l h =
        create_bound-IsOutcome i.sparse_binding self l0 l refl h

    create_object-IsOutcome :
        (r : Reply) (l : Log)
        → let c = create_object r dev i k ((Call.alloc, r) ∷ l) in
          IsOutcome dev.mem.vm.sparse_dummy c.0 l c.1 κ x
    unfolding create_object
    create_object-IsOutcome (fail e) l = (λ q. ground (arith, q), refl, inl (omega arith))
    create_object-IsOutcome (ok o) l =
        create_sized-IsOutcome (ltb (max_buffer_size dev) i.size) o.value l ((Call.alloc, ok o) ∷ l)
          (omega arith)

    -- Where the address heap gives addresses inside of the 64 bits or none, and a dummy object
    -- that is there has 2 MiB, panvk_CreateBuffer returns VK_SUCCESS with a buffer that holds its
    -- object, a sparse one its address range, and the dummy object if it is new; or it returns
    -- another result and no buffer, and nothing is left but, where there was no dummy object, the
    -- region of one of which the rest could not be made.
    pub create_buffer-IsOutcome :
        (l : Log)
        → let r = create_buffer dev i k l in IsOutcome dev.mem.vm.sparse_dummy r.0 l r.1 κ x
    unfolding create_buffer
    create_buffer-IsOutcome l = create_object-IsOutcome (k l Call.alloc) l

    held-destroy_buffer :
        (dev' : BufferDev) (b : Buffer) (l : Log)
        → held (destroy_buffer dev' b k l).1 κ x ≡ held l κ x - owned_buffer b κ x
    unfolding destroy_buffer unbind_sparse pan_vm_bind bind_type as_free
    held-destroy_buffer dev' b l = ground arith

    -- Where the address heap gives addresses inside of the 64 bits or none, and a dummy object
    -- that is there has 2 MiB, a buffer that was created and then destroyed on the device as it
    -- was left leaves the process holding what it held before, and the dummy object if its
    -- creation made one.
    pub destroy_buffer-create_buffer :
        (l : Log) (b : Buffer) (dev' : BufferDev)
        → (create_buffer dev i k l).0 ≡ (vk_success, some b, dev')
        → held (destroy_buffer dev' b k (create_buffer dev i k l).1).1 κ x
          ≡ held l κ x + kept_dummy dev.mem.vm.sparse_dummy dev'.mem.vm.sparse_dummy κ x
    destroy_buffer-create_buffer l b dev' e =
        let c = create_buffer dev i k l in
        let h =
          subst (λ r. IsOutcome dev.mem.vm.sparse_dummy r l c.1 κ x) e
            (create_buffer-IsOutcome l) in
        omega (arith, held-destroy_buffer dev' b c.1, h.2)
