-- ===== src/Pool/Disjoint.antt =====
-- panvk_pool_alloc_mem on an owning pool: the memory lies inside its buffer, is aligned, and shares
-- no byte with what was cut before.
use pan_vk_kbase.Prelude.{
  ℕ, ◌+◌, ◌%◌, ◌^◌, ◌≡◌, ◌<◌, ◌≤◌, refl, sym, ap, subst, ◌∙◌, inl, inr, true, false, Option, none,
  some, List, [], ◌∷◌, ◌==◌, arith,
}
use native.Mathlib.Nat.{zero-mod}
use pan_vk_kbase.Kernel.{Log}
use pan_vk_kbase.Kernel.Ledger.{held, memory}
use pan_vk_kbase.PrivBo.{PrivBo}
use pan_vk_kbase.Pool.{Pool, Refs, PrivMem, is_same, cut}
use pan_vk_kbase.Pool.Backing.{free_count, IsFree, IsPicked, IsNext}
use pan_vk_kbase.Pool.Room.{IsSized, HasRoom, Transient}
use pan_vk_kbase.Pool.Pieces.{
  Piece, ApartFrom, IsBelow, IsIssued, AllIssued, IsCurrent, IsSound, issue, IsInside,
  AllIssued-grow, ApartFrom-of_issued,
}

-- The pool after an allocation is sound with the new piece, which lies inside its buffer and on a
-- multiple of the alignment.
abbrev pub IsCut : (a size : ℕ) → List Piece → (PrivMem × Pool × Refs) × Log → Type 0
IsCut a size cs r =
    IsSound r.1 r.0.1 (issue r.0.0.bo r.0.0.offset size cs)
    × IsInside r.0.0.bo r.0.0.offset size
    × (r.0.0.offset % a ≡ 0)

pub is_same_self : (t : PrivBo) → is_same t (some t) ≡ true
is_same_self t = ground arith

module _ (p : Pool) (cs : List Piece) (l : Log) (sound : IsSound l p cs) (refs : Refs) where
  -- the next piece of the transient buffer
  grow-IsSound :
      (t : PrivBo) (o size : ℕ)
      → p.transient_bo ≡ some t
      → p.transient_offset ≤ o
      → o + size ≤ t.bo.size
      → IsSound l
          (record p { transient_offset = o + size })
          (record { self = t.self; offset = o; size = size } ∷ cs)
  grow-IsSound t o size e lo hi =
      let w : Transient (some t) p.transient_offset =
        subst (λ u. Transient u p.transient_offset) e sound.sized.within in
      let c : IsCurrent l p (some t) = subst (IsCurrent l p) e sound.current in
      let new : Piece = record { self = t.self; offset = o; size = size } in
      let within : Transient p.transient_bo (o + size) =
        subst (λ u. Transient u (o + size)) (sym e) (w.0, hi) in
      let below : IsBelow new p.transient_bo (o + size) =
        subst (λ u. IsBelow new u (o + size)) (sym e) (inr (omega arith)) in
      record {
        owns = sound.owns;
        sized = record { slabs = sound.sized.slabs; small = sound.sized.small; within = within };
        free = sound.free;
        current = sound.current;
        issued = ((c.0, c.1, below), AllIssued-grow l p (o + size) cs (omega arith) sound.issued);
        apart = (ApartFrom-of_issued l p t o size cs e lo sound.issued, sound.apart);
      }

  pub cut-IsCut :
      (t : PrivBo) (a o size : ℕ)
      → p.transient_bo ≡ some t
      → p.transient_offset ≤ o
      → o + size ≤ t.bo.size
      → o % a ≡ 0
      → IsCut a size cs (cut o size (some t) p refs, l)
  unfolding cut
  cut-IsCut t a o size e lo hi al =
      let w : Transient (some t) p.transient_offset =
        subst (λ u. Transient u p.transient_offset) e sound.sized.within in
      let m : (o + size) % 2 ^ 32 ≡ o + size = omega arith in
      let same : is_same t p.transient_bo ≡ true = ap (is_same t) e ∙ is_same_self t in
      (rw (same, m) (grow-IsSound t o size e lo hi), hi, al)

eq_comm : (x y : ℕ) → (x == y) ≡ false → (y == x) ≡ false
eq_comm x y h = ground arith

-- The next buffer is another than that of each piece and than the transient one, and all these stay
-- as they were.
module _ (p q : Pool) (b : PrivBo) (l l' : Log) (picked : (x : ℕ) → IsPicked p q (some b) l l' x)
    (next : IsNext (some b) p q) where
  differs : (x : ℕ) → 0 < held l memory x → free_count x p ≡ 0 → (b.self == x) ≡ false
  differs x h f = let d = (picked x).4 in ground (arith, d)

  IsBelow-next : (c : Piece) → IsIssued l p c → IsBelow c q.transient_bo q.transient_offset
  IsBelow-next c i = elim next.2 [
    | inl (e, z) ↦
        subst (λ u. IsBelow c u q.transient_offset) (sym e) (inl (differs c.self i.0 i.1))
    | inr (e, z) ↦ rw (e, z) i.2
  ]

  AllIssued-next : (cs : List Piece) → AllIssued l p cs → AllIssued l' q cs
  AllIssued-next [] i = tt
  AllIssued-next (c ∷ cs) i =
      let k = picked c.self in
      let h : 0 < held l' memory c.self = omega arith in
      let f : free_count c.self q ≡ 0 = omega arith in
      ((h, f, IsBelow-next c i.0), AllIssued-next cs i.1)

  ApartFrom-next :
      (size : ℕ) (cs : List Piece)
      → AllIssued l p cs
      → ApartFrom (record { self = b.self; offset = 0; size = size }) cs
  ApartFrom-next size [] i = tt
  ApartFrom-next size (c ∷ cs) i = (inl (differs c.self i.0.0 i.0.1), ApartFrom-next size cs i.1)

  IsCurrent-old : (o : Option PrivBo) → IsCurrent l p o → IsCurrent l' q o
  IsCurrent-old none c = tt
  IsCurrent-old (some t) c = let k = picked t.self in (omega arith, omega arith)

  IsCurrent-next : IsCurrent l p p.transient_bo → IsCurrent l' q q.transient_bo
  IsCurrent-next c = elim next.2 [
    | inl (e, z) ↦ let k = picked b.self in subst (IsCurrent l' q) (sym e) (k.3, k.2)
    | inr (e, z) ↦ subst (IsCurrent l' q) (sym e) (IsCurrent-old p.transient_bo c)
  ]

  IsFree-next : ((y : ℕ) → IsFree l p y) → (y : ℕ) → IsFree l' q y
  IsFree-next f y = let k = picked y in let g = f y in (omega arith, omega arith)

  not_same_old : (o : Option PrivBo) → IsCurrent l p o → is_same b o ≡ false
  not_same_old none c = refl
  not_same_old (some t) c = eq_comm b.self t.self (differs t.self c.0 c.1)

  IsBelow-new :
      (o : Option PrivBo) (n size : ℕ)
      → IsCurrent l p o
      → IsBelow (record { self = b.self; offset = 0; size = size }) o n
  IsBelow-new none n size c = tt
  IsBelow-new (some t) n size c = inl (eq_comm b.self t.self (differs t.self c.0 c.1))

  module _ (cs : List Piece) (sound : IsSound l p cs) (sized : IsSized q) where
    IsSound-next : IsSound l' q cs
    IsSound-next = record {
      owns = next.0 ∙ sound.owns;
      sized = sized;
      free = IsFree-next sound.free;
      current = IsCurrent-next sound.current;
      issued = AllIssued-next cs sound.issued;
      apart = sound.apart;
    }

    -- the front of the next buffer, which need not become the transient one
    pub cut-IsCut_next :
        (a size : ℕ) (refs : Refs)
        → HasRoom size (some b)
        → IsCut a size cs (cut 0 size (some b) q refs, l')
    unfolding cut
    cut-IsCut_next a size refs room = elim next.2 [
      | inl (e, z) ↦
          cut-IsCut q cs l' IsSound-next refs b a 0 size e (omega arith) (omega arith) (zero-mod a)
      | inr (e, z) ↦
          let k = picked b.self in
          let same : is_same b q.transient_bo ≡ false =
            ap (is_same b) e ∙ not_same_old p.transient_bo sound.current in
          let new : Piece = record { self = b.self; offset = 0; size = size } in
          let below : IsBelow new q.transient_bo q.transient_offset =
            subst (λ u. IsBelow new u q.transient_offset) (sym e)
              (IsBelow-new p.transient_bo q.transient_offset size sound.current) in
          let s = IsSound-next in
          let whole : IsSound l' q (new ∷ cs) = record {
            owns = s.owns;
            sized = s.sized;
            free = s.free;
            current = s.current;
            issued = ((k.3, k.2, below), s.issued);
            apart = (ApartFrom-next size cs sound.issued, s.apart);
          } in
          (rw same whole, omega arith, zero-mod a)
    ]
