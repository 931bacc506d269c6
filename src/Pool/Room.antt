-- ===== src/Pool/Room.antt =====
-- The sizes of a pool's buffers: the next one has room for what is wanted.
use pan_vk_kbase.Prelude.{
  ℕ, ◌+◌, ◌^◌, ◌≡◌, ◌<◌, ◌≤◌, true, Option, none, some, List, [], ◌∷◌, inl, inr, max, arith,
}
use pan_vk_kbase.Kernel.{Kernel, Log, Call}
use pan_vk_kbase.PrivBo.{PanvkDev, PrivBo, VkResult, priv_bo_create}
use pan_vk_kbase.PrivBo.Outcome.{IsOutcome, self_of, priv_bo_create-IsOutcome}
use pan_vk_kbase.Pool.{
  Pool, Refs, set_ref, take_free, take_big, take_big_opt, settle, created_backing, create_backing,
  big_backing, free_backing, backing_size, alloc_backing, gpu_page_size,
}
use pan_vk_kbase.Pool.Align.{align_pot-bounds}
use pan_vk_kbase.Pool.Backing.{IsKept, settle-IsKept}

-- whole slabs
abbrev pub AllSlabs : (slab : ℕ) → List PrivBo → Type 0
AllSlabs slab [] = Unit {0}
AllSlabs slab (b ∷ bs) = (b.bo.size ≡ slab) × AllSlabs slab bs

abbrev pub AllSmall : List PrivBo → Type 0
AllSmall [] = Unit {0}
AllSmall (b ∷ bs) = (b.bo.size < 2 ^ 31) × AllSmall bs

abbrev pub SlabsOpt : (slab : ℕ) → Option (List PrivBo) → Type 0
SlabsOpt slab none = Unit {0}
SlabsOpt slab (some bs) = AllSlabs slab bs

abbrev pub SmallOpt : Option (List PrivBo) → Type 0
SmallOpt none = Unit {0}
SmallOpt (some bs) = AllSmall bs

-- The transient buffer, and what was cut from it, which lies within; without one the offset is what
-- the last one left.
abbrev pub Transient : Option PrivBo → (offset : ℕ) → Type 0
Transient none offset = offset < 2 ^ 31
Transient (some t) offset = (t.bo.size < 2 ^ 31) × (offset ≤ t.bo.size)

-- Slabs in the first free list, and no buffer of 2 GiB.
pub record IsSized (p : Pool) : Type 0 where
  pub slabs : SlabsOpt p.slab_size p.bo_pool
  pub small : SmallOpt p.big_bo_pool
  pub within : Transient p.transient_bo p.transient_offset

-- the next buffer has the room
abbrev pub HasRoom : (sz : ℕ) → Option PrivBo → Type 0
HasRoom sz none = Unit {0}
HasRoom sz (some b) = (sz ≤ b.bo.size) × (b.bo.size < 2 ^ 31)

abbrev IsFull : (sz : ℕ) → (Option PrivBo × Pool × Refs) × Log → Type 0
IsFull sz r = HasRoom sz r.0.0 × IsSized r.0.1

Transient-empty :
    (b : PrivBo) (o : Option PrivBo) (n : ℕ)
    → b.bo.size < 2 ^ 31
    → o ≡ some b
    → n ≡ 0
    → Transient o n
Transient-empty b o n h e z = rw (e, z) (h, omega arith)

IsFull-of_kept :
    (sz : ℕ) (b : PrivBo) (p : Pool) (r : (Option PrivBo × Pool × Refs) × Log) (l : Log)
    → HasRoom sz (some b)
    → IsSized p
    → IsKept b p r l
    → IsFull sz r
IsFull-of_kept sz b p r l room sized kept =
    let s = kept.2 in
    let t : Transient r.0.1.transient_bo r.0.1.transient_offset = elim s.4 [
      | inl (e, z) ↦ Transient-empty b r.0.1.transient_bo r.0.1.transient_offset room.1 e z
      | inr (e, z) ↦ rw (e, z) sized.within
    ] in
    (
      rw (kept.0) room,
      record { slabs = rw (s.1, s.2) sized.slabs; small = rw (s.3) sized.small; within = t },
    )

-- what is taken from the free lists has the size
abbrev TakenRoom :
    (wanted : ℕ) → (lists : List PrivBo → Type 0) → Option (PrivBo × List PrivBo) → Type 0
TakenRoom wanted lists none = Unit {0}
TakenRoom wanted lists (some (b, bs)) = (wanted ≤ b.bo.size) × (b.bo.size < 2 ^ 31) × lists bs

take_free-TakenRoom :
    (wanted slab : ℕ) (bs : Option (List PrivBo))
    → wanted < 2 ^ 31
    → SlabsOpt slab bs
    → TakenRoom wanted (AllSlabs slab) (take_free wanted slab bs)
take_free-TakenRoom wanted slab none h s = tt
take_free-TakenRoom wanted slab (some []) h s = tt
take_free-TakenRoom wanted slab (some (b ∷ bs)) h s = ground (arith, s)

take_big-TakenRoom :
    (wanted : ℕ) (bs : List PrivBo) → AllSmall bs → TakenRoom wanted AllSmall (take_big wanted bs)
take_big-TakenRoom wanted [] s = tt
take_big-TakenRoom wanted (b ∷ bs) s = ground (arith, s, take_big-TakenRoom wanted bs s.1)

take_big_opt-TakenRoom :
    (wanted : ℕ) (bs : Option (List PrivBo))
    → SmallOpt bs
    → TakenRoom wanted AllSmall (take_big_opt wanted bs)
take_big_opt-TakenRoom wanted none s = tt
take_big_opt-TakenRoom wanted (some bs) s = take_big-TakenRoom wanted bs s

module _ (dev : PanvkDev) (k : Kernel) (p : Pool) (l : Log) (owns : p.owns_bos ≡ true)
    (sized : IsSized p) where
  module _ (bo_sz sz : ℕ) (enough : sz ≤ bo_sz) (small : bo_sz < 2 ^ 31) where
    settle-IsFull :
        (b : PrivBo) (p1 : Pool) (l1 : Log) (refs : Refs)
        → p1.owns_bos ≡ true
        → bo_sz ≤ b.bo.size
        → b.bo.size < 2 ^ 31
        → IsSized p1
        → IsFull sz (settle dev bo_sz sz b p1 refs k l1)
    settle-IsFull b p1 l1 refs o lo hi s =
        IsFull-of_kept sz b p1 (settle dev bo_sz sz b p1 refs k l1) l1 (omega arith, hi) s
          (settle-IsKept dev k l1 bo_sz sz b p1 refs o)

    created_backing-IsFull :
        (self : ℕ) (r : VkResult) (o : Option PrivBo) (l' : Log) (refs : Refs)
        → IsOutcome self bo_sz (r, o) l l' 0
        → IsFull sz (created_backing o dev bo_sz sz p refs k l')
    unfolding created_backing
    created_backing-IsFull self r none l' refs out = (tt, sized)
    created_backing-IsFull self r (some b) l' refs out =
        settle-IsFull b p l' (set_ref b.self b.refcnt refs) owns (omega arith) (omega arith) sized

    create_backing-IsFull : (refs : Refs) → IsFull sz (create_backing dev bo_sz sz p refs k l)
    unfolding create_backing
    create_backing-IsFull refs =
        let c = priv_bo_create dev bo_sz p.create_flags k l in
        created_backing-IsFull (self_of (k l Call.alloc)) c.0.0 c.0.1 c.1 refs
          (priv_bo_create-IsOutcome dev k 0 bo_sz p.create_flags l)

    big_backing-IsFull :
        (t : Option (PrivBo × List PrivBo)) (refs : Refs)
        → TakenRoom bo_sz AllSmall t
        → IsFull sz (big_backing t dev bo_sz sz p refs k l)
    unfolding big_backing
    big_backing-IsFull none refs h = create_backing-IsFull refs
    big_backing-IsFull (some (b, bs)) refs h =
        settle-IsFull b (record p { big_bo_pool = some bs }) l refs owns h.0 h.1
          (record { slabs = sized.slabs; small = h.2; within = sized.within })

    free_backing-IsFull :
        (t : Option (PrivBo × List PrivBo)) (refs : Refs)
        → TakenRoom bo_sz (AllSlabs p.slab_size) t
        → IsFull sz (free_backing t dev bo_sz sz p refs k l)
    unfolding free_backing
    free_backing-IsFull none refs h =
        big_backing-IsFull (take_big_opt bo_sz p.big_bo_pool) refs
          (take_big_opt-TakenRoom bo_sz p.big_bo_pool sized.small)
    free_backing-IsFull (some (b, bs)) refs h =
        settle-IsFull b (record p { bo_pool = some bs }) l refs owns h.0 h.1
          (record { slabs = h.2; small = sized.small; within = sized.within })

  -- what
  pub alloc_backing-IsFull :
      (sz : ℕ) (refs : Refs)
      → 0 < gpu_page_size dev
      → p.slab_size + gpu_page_size dev ≤ 2 ^ 31
      → sz + gpu_page_size dev ≤ 2 ^ 31
      → HasRoom sz (alloc_backing dev sz p refs k l).0.0
        × IsSized (alloc_backing dev sz p refs k l).0.1
  unfolding alloc_backing
  alloc_backing-IsFull sz refs page slab fits =
      let bo_sz = backing_size dev sz p in
      let (lo, hi, e) =
        align_pot-bounds 64 (max p.slab_size sz) (gpu_page_size dev) page (omega arith) in
      let enough : sz ≤ bo_sz = omega arith in
      let small : bo_sz < 2 ^ 31 = omega arith in
      free_backing-IsFull bo_sz sz enough small (take_free bo_sz p.slab_size p.bo_pool) refs
        (take_free-TakenRoom bo_sz p.slab_size p.bo_pool small sized.slabs)
