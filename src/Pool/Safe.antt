-- ===== src/Pool/Safe.antt =====
-- panvk_pool_alloc_mem as a whole, and runs of it.
use pan_vk_kbase.Prelude.{
  ℕ, ◌+◌, ◌-◌, ◌%◌, ◌^◌, ◌≡◌, ◌<◌, ◌≤◌, refl, sym, ap, subst, ◌∙◌, inl, inr, Bool, true, false,
  Option, none, some, List, [], ◌∷◌, leb, leb→le, Option-cases, arith,
}
use native.Mathlib.Nat.{zero-mod}
use pan_vk_kbase.Kernel.{Kernel, Log, Call}
use pan_vk_kbase.Kernel.Ledger.{held, memory, one}
use pan_vk_kbase.PrivBo.{PanvkDev, PrivBo}
use pan_vk_kbase.Pool.{
  Pool, Refs, AllocInfo, used_alignment, cut, fits, alloc_backing, alloc_fitting, lock_if,
  next_offset, alloc_mem, gpu_page_size,
}
use pan_vk_kbase.Pool.Align.{align_pot-bounds}
use pan_vk_kbase.Pool.Backing.{AllocLaw, IsPicked, IsNext, alloc_backing-IsBacking}
use pan_vk_kbase.Pool.Room.{IsSized, HasRoom, Transient, alloc_backing-IsFull}
use pan_vk_kbase.Pool.Pieces.{Piece, AllIssued, IsCurrent, IsSound, issue}
use pan_vk_kbase.Pool.Disjoint.{IsCut, cut-IsCut, cut-IsCut_next}

-- Only what is held of memory matters of the log.
module _ (l l' : Log) (same : (x : ℕ) → held l' memory x ≡ held l memory x) where
  AllIssued-shift : (p : Pool) (cs : List Piece) → AllIssued l p cs → AllIssued l' p cs
  AllIssued-shift p [] i = tt
  AllIssued-shift p (c ∷ cs) i =
      let e = same c.self in ((omega arith, i.0.1, i.0.2), AllIssued-shift p cs i.1)

  IsCurrent-shift : (p : Pool) (o : Option PrivBo) → IsCurrent l p o → IsCurrent l' p o
  IsCurrent-shift p none c = tt
  IsCurrent-shift p (some t) c = let e = same t.self in (omega arith, c.1)

  pub IsSound-shift : (p : Pool) (cs : List Piece) → IsSound l p cs → IsSound l' p cs
  IsSound-shift p cs s = record {
    owns = s.owns;
    sized = s.sized;
    free = λ y. let e = same y in let f = s.free y in (f.0, omega arith);
    current = IsCurrent-shift p p.transient_bo s.current;
    issued = AllIssued-shift p cs s.issued;
    apart = s.apart;
  }

pub held-lock_if :
    (b : Bool) (k : Kernel) (l : Log) (x : ℕ)
    → held (lock_if b Call.lock k l).1 memory x ≡ held l memory x
unfolding one
held-lock_if true k l x = ground arith
held-lock_if false k l x = refl

held-unlock_if :
    (b : Bool) (k : Kernel) (l : Log) (x : ℕ)
    → held (lock_if b Call.unlock k l).1 memory x ≡ held l memory x
unfolding one
held-unlock_if true k l x = ground arith
held-unlock_if false k l x = refl

-- An allocation within what 32 and 64 bits hold, of pages of a known size.
pub record IsRequest (dev : PanvkDev) (p : Pool) (a size : ℕ) : Type 0 where
  pub page : 0 < gpu_page_size dev
  pub slab_fits : p.slab_size + gpu_page_size dev ≤ 2 ^ 31
  pub size_fits : size + gpu_page_size dev ≤ 2 ^ 31
  pub aligned : 0 < a
  pub alignment_fits : a ≤ 2 ^ 31

module _ (dev : PanvkDev) (k : Kernel) (law : AllocLaw k) (a size : ℕ) (cs : List Piece) where
  -- what the pool had is cut once more, or a new buffer at its front
  backed-IsCut :
      (p q : Pool) (l l' : Log) (o : Option PrivBo) (refs : Refs)
      → IsSound l p cs
      → ((x : ℕ) → IsPicked p q o l l' x)
      → IsNext o p q
      → HasRoom size o
      → IsSized q
      → IsCut a size cs (cut 0 size o q refs, l')
  unfolding cut
  backed-IsCut p q l l' none refs s picked next room sized =
      let shifted = IsSound-shift l l' (λ x. (picked x).1) p cs s in
      (subst (λ u. IsSound l' u cs) (sym (picked 0).0) shifted, tt, zero-mod a)
  backed-IsCut p q l l' (some b) refs s picked next room sized =
      cut-IsCut_next p q b l l' picked next cs s sized a size refs room

  module _ (p : Pool) (l : Log) (s : IsSound l p cs) (request : IsRequest dev p a size)
      (refs : Refs) where
    alloc_fitting-IsCut :
        (fit : Bool) (o : ℕ)
        → fits o size p.transient_bo ≡ fit
        → p.transient_offset ≤ o
        → o % a ≡ 0
        → IsCut a size cs (alloc_fitting fit dev o size p refs k l)
    unfolding alloc_fitting
    alloc_fitting-IsCut false o f lo al =
        let r = alloc_backing dev size p refs k l in
        let backing = alloc_backing-IsBacking dev k law p l s.owns s.free size refs in
        let full =
          alloc_backing-IsFull dev k p l s.owns s.sized size refs request.page request.slab_fits
            request.size_fits in
        backed-IsCut p r.0.1 l r.1 r.0.0 r.0.2 s (λ x. (backing x).0) (backing 0).1 full.0 full.1
    alloc_fitting-IsCut true o f lo al = elim (Option-cases p.transient_bo) [
      | inl e ↦ let z : true ≡ false = sym f ∙ ap (fits o size) e in ground (arith, z)
      | inr (t, e) ↦
          let inside : leb (o + size) t.bo.size ≡ true = sym (ap (fits o size) e) ∙ f in
          subst (λ u. IsCut a size cs (cut o size u p refs, l)) (sym e)
            (cut-IsCut p cs l s refs t a o size e lo (leb→le (o + size) t.bo.size inside) al)
    ]

offset-small : (o : Option PrivBo) (n : ℕ) → Transient o n → n < 2 ^ 31
offset-small none n t = t
offset-small (some b) n t = omega arith

module _ (dev : PanvkDev) (k : Kernel) (law : AllocLaw k) (atom : ℕ) (i : AllocInfo)
    (cs : List Piece) (p : Pool) (l : Log) (refs : Refs) where
  -- On a sound owning pool and a request within 2 GiB, where malloc() returns no address that is
  -- in use, the memory that panvk_pool_alloc_mem gives lies inside its buffer and on a multiple of
  -- the alignment, and the pool is sound with the new piece: it shares no byte with a piece that
  -- was cut before.
  pub alloc_mem-IsCut :
      IsSound l p cs
      → IsRequest dev p (used_alignment atom p i) i.size
      → IsCut (used_alignment atom p i) i.size cs (alloc_mem dev atom i p refs k l)
  unfolding alloc_mem
  alloc_mem-IsCut s request =
      let a = used_alignment atom p i in
      let l1 = (lock_if p.needs_locking Call.lock k l).1 in
      let s1 = IsSound-shift l l1 (held-lock_if p.needs_locking k l) p cs s in
      let n = p.transient_offset in
      let small = offset-small p.transient_bo n s.sized.within in
      let no_wrap : n + (a - 1) < 2 ^ 32 =
        let h = request.alignment_fits in let h' = request.aligned in omega arith in
      let (lo, hi, al) = align_pot-bounds 32 n a request.aligned no_wrap in
      let o = next_offset atom p i in
      let fit = fits o i.size p.transient_bo in
      let r = alloc_fitting fit dev o i.size p refs k l1 in
      let c = alloc_fitting-IsCut dev k law a i.size cs p l1 s1 request refs fit o refl lo al in
      let l3 = (lock_if p.needs_locking Call.unlock k r.1).1 in
      (
        IsSound-shift r.1 l3 (held-unlock_if p.needs_locking k r.1) r.0.1
            (issue r.0.0.bo r.0.0.offset i.size cs) c.0,
        c.1,
        c.2,
      )
