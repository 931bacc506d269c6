-- ===== src/Pool/Run.antt =====
-- Runs of allocations from one pool.
use pan_vk_kbase.Prelude.{
  ℕ, ◌+◌, ◌^◌, ◌≡◌, ◌<◌, ◌≤◌, refl, ◌∙◌, Bool, true, false, Option, none, some, List, [], ◌∷◌,
  arith,
}
use pan_vk_kbase.Kernel.{Kernel, Log, Call, M, pure, ◌>>=◌}
use pan_vk_kbase.PrivBo.{PanvkDev, PrivBo}
use pan_vk_kbase.Pool.{
  Pool, Refs, AllocInfo, used_alignment, cut, fits, alloc_backing, alloc_fitting, lock_if,
  next_offset, alloc_mem, gpu_page_size,
}
use pan_vk_kbase.Pool.Backing.{AllocLaw, alloc_backing-IsBacking}
use pan_vk_kbase.Pool.Pieces.{Piece, IsSound, issue}
use pan_vk_kbase.Pool.Safe.{IsRequest, IsSound-shift, held-lock_if, alloc_mem-IsCut}

-- one allocation after another: the pool, the counts and all pieces, the last one first
unfoldable pub alloc_run :
    PanvkDev → (atom : ℕ) → List AllocInfo → Pool → Refs → List Piece → M (Pool × Refs × List Piece)
unfolding alloc_mem
alloc_run dev atom [] p refs cs = pure (p, refs, cs)
alloc_run dev atom (i ∷ is) p refs cs = do
  (m, p', refs') ← alloc_mem dev atom i p refs
  alloc_run dev atom is p' refs' (issue m.bo m.offset i.size cs)

-- requests for less than 2 GiB each, with an alignment that is no more
abbrev pub AllRequests : PanvkDev → List AllocInfo → Type 0
AllRequests dev [] = Unit {0}
AllRequests dev (i ∷ is) =
    (i.size + gpu_page_size dev ≤ 2 ^ 31)
    × (0 < i.alignment)
    × (i.alignment ≤ 2 ^ 31)
    × AllRequests dev is

slab-cut :
    (o size : ℕ) (b : Option PrivBo) (p : Pool) (refs : Refs)
    → (cut o size b p refs).1.slab_size ≡ p.slab_size
unfolding cut
slab-cut o size none p refs = refl
slab-cut o size (some b) p refs = ground arith

used_alignment-owns :
    (atom : ℕ) (p : Pool) (i : AllocInfo)
    → p.owns_bos ≡ true
    → used_alignment atom p i ≡ i.alignment
used_alignment-owns atom p i e = rw e refl

module _ (dev : PanvkDev) (k : Kernel) (law : AllocLaw k) (atom : ℕ) where
  slab-alloc_fitting :
      (fit : Bool) (o size : ℕ) (p : Pool) (l : Log) (refs : Refs) (cs : List Piece)
      → IsSound l p cs
      → (alloc_fitting fit dev o size p refs k l).0.1.slab_size ≡ p.slab_size
  unfolding alloc_fitting
  slab-alloc_fitting true o size p l refs cs s = slab-cut o size p.transient_bo p refs
  slab-alloc_fitting false o size p l refs cs s =
      let r = (alloc_backing dev size p refs k l).0 in
      slab-cut 0 size r.0 r.1 r.2
      ∙ (alloc_backing-IsBacking dev k law p l s.owns s.free size refs 0).1.1

  slab-alloc_mem :
      (i : AllocInfo) (p : Pool) (l : Log) (refs : Refs) (cs : List Piece)
      → IsSound l p cs
      → (alloc_mem dev atom i p refs k l).0.1.slab_size ≡ p.slab_size
  unfolding alloc_mem
  slab-alloc_mem i p l refs cs s =
      let l1 = (lock_if p.needs_locking Call.lock k l).1 in
      let o = next_offset atom p i in
      slab-alloc_fitting (fits o i.size p.transient_bo) o i.size p l1 refs cs
        (IsSound-shift l l1 (held-lock_if p.needs_locking k l) p cs s)

  -- A sound owning pool stays sound over any run of allocations below 2 GiB each, from its free
  -- lists or of new buffers, failures included: no two of all pieces share a byte.
  pub alloc_run-IsSound :
      (is : List AllocInfo) (p : Pool) (refs : Refs) (cs : List Piece) (l : Log)
      → IsSound l p cs
      → 0 < gpu_page_size dev
      → p.slab_size + gpu_page_size dev ≤ 2 ^ 31
      → AllRequests dev is
      → let r = alloc_run dev atom is p refs cs k l in IsSound r.1 r.0.0 r.0.2
  unfolding alloc_run
  alloc_run-IsSound [] p refs cs l s page slab rs = s
  alloc_run-IsSound (i ∷ is) p refs cs l s page slab rs =
      let e = used_alignment-owns atom p i s.owns in
      let request : IsRequest dev p (used_alignment atom p i) i.size = record {
        page = page;
        slab_fits = slab;
        size_fits = rs.0;
        aligned = rw e (rs.1);
        alignment_fits = rw e (rs.2);
      } in
      let a = alloc_mem dev atom i p refs k l in
      let c = alloc_mem-IsCut dev k law atom i cs p l refs s request in
      let same = slab-alloc_mem i p l refs cs s in
      alloc_run-IsSound is a.0.1 a.0.2 (issue a.0.0.bo a.0.0.offset i.size cs) a.1 c.0 page
        (omega arith) rs.3
