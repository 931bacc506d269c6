-- ===== src/Pan/Sparse/Held.antt =====
-- What a sparse mapping leaves held: the dummy object that it made, if it made one.
use pan_vk_kbase.Prelude.{
  ℕ, ◌+◌, ◌-◌, ◌^◌, ◌<◌, ◌≡◌, ◌⊎◌, inl, inr, refl, ap, sym, subst, ◌∙◌, Bool, true, false, Option,
  none, some, [], ◌∷◌, arith,
}
use pan_vk_kbase.Kernel.{Kernel, Log, Call, Reply, ok, fail, no_out}
use pan_vk_kbase.Kernel.Ledger.{Kind, held, one, memory, region}
use pan_vk_kbase.Pan.{PanBo, bo_req, kbase_bo_alloc}
use pan_vk_kbase.Pan.Space.{PanVm, pan_bo_alloc}
use pan_vk_kbase.Pan.Sparse.{
  pgsize_2m, make_dummy, get_dummy_object, sparse_loop, emulate_sparse, bind_sparse,
}
use pan_vk_kbase.Pan.Sparse.Loop.{multi_op_flush-makes_no_call, sparse_loop-ends}

-- what a dummy object that was made holds from then on, by the one before and the one after
abbrev pub kept_dummy : (before after : Option PanBo) → Kind → ℕ → ℕ
kept_dummy none (some d) κ x = one memory d.self κ x + one region d.priv κ x
kept_dummy none none κ x = 0
kept_dummy (some b) after κ x = 0

-- A dummy object has 2 MiB.
abbrev pub HasDummySize : Option PanBo → Type 0
HasDummySize none = Unit {0}
HasDummySize (some b) = b.size ≡ pgsize_2m

abbrev region_of : Reply → Kind → ℕ → ℕ
region_of (fail e) κ x = 0
region_of (ok o) κ x = one region o.value κ x

-- Nothing is left, or the region of an object of which the rest could not be made.
abbrev pub IsLeft : (before after : Log) → Kind → ℕ → Type 0
IsLeft l l' κ x =
    (held l' κ x ≡ held l κ x) ⊎ ((y : ℕ) × (held l' κ x ≡ held l κ x + one region y κ x))

IsLeft-of_reply :
    (r : Reply) (l l' : Log) (κ : Kind) (x : ℕ)
    → held l' κ x ≡ held l κ x + region_of r κ x
    → IsLeft l l' κ x
IsLeft-of_reply (fail e) l l' κ x h = inl (omega (arith, h))
IsLeft-of_reply (ok o) l l' κ x h = inr (o.value, h)

-- The dummy object after a call that asked for it: the one there was, a new one that is held, or
-- none, where there was none.
abbrev IsDummy : (r : Reply) (before after : Option PanBo) → (l l' : Log) → Kind → ℕ → Type 0
IsDummy r (some b) d l l' κ x = (d ≡ some b) × (held l' κ x ≡ held l κ x)
IsDummy r none (some d) l l' κ x =
    (d.size ≡ pgsize_2m)
    × (held l' κ x ≡ held l κ x + (one memory d.self κ x + one region d.priv κ x))
IsDummy r none none l l' κ x = held l' κ x ≡ held l κ x + region_of r κ x

module _ (k : Kernel) (κ : Kind) (x : ℕ) where
  make_dummy-IsDummy :
      (before : Option PanBo) (l : Log)
      → IsDummy
          (k l (Call.mem_alloc (bo_req pgsize_2m)))
          before
          (make_dummy before k l).0
          l
          (make_dummy before k l).1
          κ
          x
  unfolding make_dummy pan_bo_alloc kbase_bo_alloc
  make_dummy-IsDummy none l = ground arith
  make_dummy-IsDummy (some b) l = (refl, refl)

  IsDummy-unlocked :
      (r : Reply) (before after : Option PanBo) (l l' : Log)
      → IsDummy r before after ((Call.lock, ok no_out) ∷ l) l' κ x
      → IsDummy r before after l ((Call.unlock, ok no_out) ∷ l') κ x
  IsDummy-unlocked r (some b) after l l' h = (h.0, omega (arith, h.1))
  IsDummy-unlocked r none (some d) l l' h = (h.0, omega (arith, h.1))
  IsDummy-unlocked r none none l l' h = omega (arith, h)

  get_dummy_object-IsDummy :
      (vm : PanVm) (l : Log)
      → let r = get_dummy_object vm k l in
        IsDummy
          (k ((Call.lock, ok no_out) ∷ l) (Call.mem_alloc (bo_req pgsize_2m)))
          vm.sparse_dummy
          r.0.sparse_dummy
          l
          r.1
          κ
          x
  unfolding get_dummy_object
  get_dummy_object-IsDummy vm l =
      let l1 : Log = (Call.lock, ok no_out) ∷ l in
      let d = make_dummy vm.sparse_dummy k l1 in
      IsDummy-unlocked (k l1 (Call.mem_alloc (bo_req pgsize_2m))) vm.sparse_dummy d.0 l d.1
        (make_dummy-IsDummy vm.sparse_dummy l1)

  emulate_sparse-makes_no_call :
      (d : PanBo) (vm : PanVm) (base size : ℕ) (l : Log)
      → d.size ≡ pgsize_2m
      → base < 2 ^ 64 - 1
      → (emulate_sparse (some d) vm base size k l).1 ≡ l
  unfolding emulate_sparse
  emulate_sparse-makes_no_call d vm base size l s b =
      let r = sparse_loop size vm pgsize_2m base size 0 [] k l in
      let e =
        sparse_loop-ends vm k size base size 0 [] l b (omega arith) (omega arith) (inr (inl refl))
          tt (omega arith) in
      rw s (multi_op_flush-makes_no_call vm k r.0.1 r.1 e.1.0 ∙ e.1.2)

  -- What a sparse mapping holds that was bound; where it was not, there was no dummy object.
  abbrev pub IsBound : (before after : Option PanBo) → Bool → (l l' : Log) → Type 0
  IsBound before after true l l' =
      HasDummySize after × (held l' κ x ≡ held l κ x + kept_dummy before after κ x)
  IsBound before after false l l' = (before ≡ none) × (after ≡ none) × IsLeft l l' κ x

  IsBound-of_dummy :
      (r : Reply) (before after : Option PanBo) (vm : PanVm) (base size : ℕ) (l l1 : Log)
      → HasDummySize before
      → base < 2 ^ 64 - 1
      → IsDummy r before after l l1 κ x
      → let e = emulate_sparse after vm base size k l1 in IsBound before after e.0 l e.1
  unfolding emulate_sparse
  IsBound-of_dummy r none none vm base size l l1 s b h = (refl, refl, IsLeft-of_reply r l l1 κ x h)
  IsBound-of_dummy r none (some d) vm base size l l1 s b h = (
    h.0,
    omega (arith, h.1, ap (λ m. held m κ x) (emulate_sparse-makes_no_call d vm base size l1 h.0 b)),
  )
  IsBound-of_dummy r (some c) none vm base size l l1 s b h = absurd (ground (arith, h.0))
  IsBound-of_dummy r (some c) (some d) vm base size l l1 s b h =
      let z : d.size ≡ pgsize_2m = subst HasDummySize (sym h.0) s in
      (
        z,
        omega
            (arith, h.1, ap (λ m. held m κ x) (emulate_sparse-makes_no_call d vm base size l1 z b)),
      )

  -- A sparse mapping at an address of its own, over an address space whose dummy object has 2 MiB
  -- or is not there, is bound, and nothing but a new dummy object is held for it, or making the
  -- dummy object failed.
  pub bind_sparse-IsBound :
      (vm : PanVm) (base size : ℕ) (l : Log)
      → HasDummySize vm.sparse_dummy
      → base < 2 ^ 64 - 1
      → let r = bind_sparse vm base size k l in
        IsBound vm.sparse_dummy r.0.1.sparse_dummy r.0.0 l r.1
  unfolding bind_sparse
  bind_sparse-IsBound vm base size l s b =
      let g = get_dummy_object vm k l in
      IsBound-of_dummy _ vm.sparse_dummy g.0.sparse_dummy g.0 base size l g.1 s b
        (get_dummy_object-IsDummy vm l)
