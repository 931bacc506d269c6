-- ===== src/Pool/Backing.antt =====
-- Where the buffer comes from that an owning pool cuts next: from one of the free lists, or new.
-- A buffer is told by its address.
use pan_vk_kbase.Prelude.{
  ℕ, ◌+◌, ◌≡◌, ◌<◌, ◌≤◌, refl, ◌∙◌, Bool, true, false, Option, none, some, List, [], ◌∷◌, ◌==◌, ◌⊎◌,
  if◌then◌else◌, inl, inr, arith,
}
use pan_vk_kbase.Kernel.{Kernel, Log, Call}
use pan_vk_kbase.Kernel.Ledger.{held, one_self, memory}
use pan_vk_kbase.PrivBo.{PanvkDev, PrivBo, VkResult, priv_bo_create}
use pan_vk_kbase.PrivBo.Outcome.{IsOutcome, self_of, priv_bo_create-IsOutcome}
use pan_vk_kbase.Pool.{
  Pool, Refs, set_ref, take_free, take_big, take_big_opt, keep_bo, is_better, release_transient,
  settle_if, settle, created_backing, create_backing, big_backing, free_backing, backing_size,
  alloc_backing,
}

-- how often the address is one of the buffers'
abbrev pub count : ℕ → List PrivBo → ℕ
count x [] = 0
count x (b ∷ bs) = (if b.self == x then 1 else 0) + count x bs

abbrev pub count_opt : ℕ → Option (List PrivBo) → ℕ
count_opt x none = 0
count_opt x (some bs) = count x bs

-- how often it is in the free lists
abbrev pub free_count : ℕ → Pool → ℕ
free_count x p = count_opt x p.bo_pool + count_opt x p.big_bo_pool

-- A buffer in the free lists is held, and is there once.
abbrev pub IsFree : Log → Pool → ℕ → Type 0
IsFree l p x = (free_count x p ≤ 1) × (free_count x p ≤ held l memory x)

-- malloc() returns no address that is in use, and NULL, its answer for failure, is none.
abbrev pub AllocLaw : Kernel → Type 0
AllocLaw k = (l : Log) → held l memory (self_of (k l Call.alloc)) ≡ 0

-- what is taken from a free list, and what is left there
abbrev IsTaken : (taken : Option (PrivBo × List PrivBo)) → Option (List PrivBo) → ℕ → Type 0
IsTaken none bs x = Unit {0}
IsTaken (some (b, rest)) bs x = count_opt x bs ≡ (if b.self == x then 1 else 0) + count x rest

take_free-IsTaken :
    (wanted slab : ℕ) (bs : Option (List PrivBo)) (x : ℕ) → IsTaken (take_free wanted slab bs) bs x
take_free-IsTaken wanted slab none x = tt
take_free-IsTaken wanted slab (some []) x = tt
take_free-IsTaken wanted slab (some (b ∷ bs)) x = ground arith

take_big-IsTaken :
    (wanted : ℕ) (bs : List PrivBo) (x : ℕ) → IsTaken (take_big wanted bs) (some bs) x
take_big-IsTaken wanted [] x = tt
take_big-IsTaken wanted (b ∷ bs) x = ground (arith, take_big-IsTaken wanted bs x)

take_big_opt-IsTaken :
    (wanted : ℕ) (bs : Option (List PrivBo)) (x : ℕ) → IsTaken (take_big_opt wanted bs) bs x
take_big_opt-IsTaken wanted none x = tt
take_big_opt-IsTaken wanted (some bs) x = take_big-IsTaken wanted bs x

-- The buffer is kept, and becomes the transient one or not.
abbrev pub IsSettled : PrivBo → (before after : Pool) → Type 0
IsSettled b p q =
    (q.owns_bos ≡ p.owns_bos)
    × (q.slab_size ≡ p.slab_size)
    × (q.bo_pool ≡ p.bo_pool)
    × (q.big_bo_pool ≡ p.big_bo_pool)
    × ((q.transient_bo ≡ some b) × (q.transient_offset ≡ 0)
        ⊎ (q.transient_bo ≡ p.transient_bo) × (q.transient_offset ≡ p.transient_offset))

-- the outcome of `settle`
abbrev pub IsKept : PrivBo → Pool → (Option PrivBo × Pool × Refs) × Log → Log → Type 0
IsKept b p r l = (r.0.0 ≡ some b) × (r.1 ≡ l) × IsSettled b p r.0.1

module _ (dev : PanvkDev) (k : Kernel) (l : Log) where
  settle_if-IsKept :
      (better : Bool) (b : PrivBo) (p : Pool) (refs : Refs)
      → p.owns_bos ≡ true
      → IsKept b p (settle_if better dev b (keep_bo b p) refs k l) l
  unfolding settle_if release_transient
  settle_if-IsKept false b p refs o = (refl, refl, (refl, refl, refl, refl, inr (refl, refl)))
  settle_if-IsKept true b p refs o = rw o (refl, refl, (refl, refl, refl, refl, inl (refl, refl)))

  pub settle-IsKept :
      (bo_sz sz : ℕ) (b : PrivBo) (p : Pool) (refs : Refs)
      → p.owns_bos ≡ true
      → IsKept b p (settle dev bo_sz sz b p refs k l) l
  unfolding settle
  settle-IsKept bo_sz sz b p refs o =
      settle_if-IsKept (is_better bo_sz sz b (keep_bo b p)) b p refs o

-- What the next buffer is to the pool before, after a log `l`, and to an address: it is in no free
-- list any more, is held, and is another than each that is held and in no free list.
abbrev pub IsPicked : (before after : Pool) → Option PrivBo → (l l' : Log) → ℕ → Type 0
IsPicked p q none l l' x = (q ≡ p) × (held l' memory x ≡ held l memory x)
IsPicked p q (some b) l l' x =
    (free_count x q ≤ free_count x p)
    × (held l memory x ≤ held l' memory x)
    × (free_count b.self q ≡ 0)
    × (0 < held l' memory b.self)
    × (((b.self == x) ≡ false) ⊎ (held l memory x ≡ 0) ⊎ (0 < free_count x p))

one_at : ℕ → ℕ → ℕ
one_at y x = if y == x then 1 else 0

one_at_self : (x : ℕ) → one_at x x ≡ 1
unfolding one_at
one_at_self x = ground arith

free_count-IsSettled :
    (b : PrivBo) (p q : Pool) (x : ℕ) → IsSettled b p q → free_count x q ≡ free_count x p
free_count-IsSettled b p q x s = rw (s.2, s.3) refl

-- a buffer of a free list
IsPicked-of_taken :
    (p p1 q : Pool) (b : PrivBo) (l : Log) (x : ℕ)
    → ((y : ℕ) → free_count y p ≡ one_at b.self y + free_count y p1)
    → ((y : ℕ) → IsFree l p y)
    → IsSettled b p1 q
    → IsPicked p q (some b) l l x
unfolding one_at
IsPicked-of_taken p p1 q b l x taken free s =
    let at_self = one_at_self b.self in
    let n = taken x in
    let m = taken b.self in
    let f = free b.self in
    let e = free_count-IsSettled b p1 q x s in
    let e' = free_count-IsSettled b p1 q b.self s in
    (omega arith, omega arith, omega arith, omega arith, ground (arith, n))

-- a new one
IsPicked-of_outcome :
    (p q : Pool) (b : PrivBo) (self size : ℕ) (r : VkResult) (l l' : Log) (x : ℕ)
    → held l memory self ≡ 0
    → ((y : ℕ) → IsFree l p y)
    → ((y : ℕ) → IsOutcome self size (r, some b) l l' y)
    → IsSettled b p q
    → IsPicked p q (some b) l l' x
IsPicked-of_outcome p q b self size r l l' x unused free out s =
    let o = out x in
    let o' = out b.self in
    let f : free_count b.self p ≤ held l memory b.self = (free b.self).1 in
    let u : held l memory b.self ≡ 0 = rw (o.1) unused in
    let e = free_count-IsSettled b p q x s in
    let e' = free_count-IsSettled b p q b.self s in
    let i = one_self memory b.self in
    (omega arith, omega arith, omega arith, omega arith, ground (arith, u))

-- The transient buffer afterwards: the new one, all free, or the old one as it was.
abbrev pub IsNext : Option PrivBo → (before after : Pool) → Type 0
IsNext o p q =
    (q.owns_bos ≡ p.owns_bos)
    × (q.slab_size ≡ p.slab_size)
    × ((q.transient_bo ≡ o) × (q.transient_offset ≡ 0)
        ⊎ (q.transient_bo ≡ p.transient_bo) × (q.transient_offset ≡ p.transient_offset))

abbrev pub IsBacking : Pool → (Option PrivBo × Pool × Refs) × Log → Log → ℕ → Type 0
IsBacking p r l x = IsPicked p r.0.1 r.0.0 l r.1 x × IsNext r.0.0 p r.0.1

IsBacking-of_kept :
    (p p1 : Pool) (b : PrivBo) (r : (Option PrivBo × Pool × Refs) × Log) (l l1 : Log) (x : ℕ)
    → p1.owns_bos ≡ p.owns_bos
    → p1.slab_size ≡ p.slab_size
    → p1.transient_bo ≡ p.transient_bo
    → p1.transient_offset ≡ p.transient_offset
    → IsPicked p r.0.1 (some b) l l1 x
    → IsKept b p1 r l1
    → IsBacking p r l x
IsBacking-of_kept p p1 b r l l1 x o z t u picked kept =
    let s = kept.2 in
    (rw (kept.0, kept.1) picked, rw (kept.0) (rw (← o, ← z, ← t, ← u) (s.0, s.1, s.4)))

count_big :
    (b : PrivBo) (bs : List PrivBo) (p : Pool) (y : ℕ)
    → count_opt y p.big_bo_pool ≡ (if b.self == y then 1 else 0) + count y bs
    → free_count y p ≡ one_at b.self y + free_count y (record p { big_bo_pool = some bs })
unfolding one_at
count_big b bs p y e = omega arith

count_small :
    (b : PrivBo) (bs : List PrivBo) (p : Pool) (y : ℕ)
    → count_opt y p.bo_pool ≡ (if b.self == y then 1 else 0) + count y bs
    → free_count y p ≡ one_at b.self y + free_count y (record p { bo_pool = some bs })
unfolding one_at
count_small b bs p y e = omega arith

module _ (dev : PanvkDev) (k : Kernel) (law : AllocLaw k) (p : Pool) (l : Log)
    (owns : p.owns_bos ≡ true) (free : (y : ℕ) → IsFree l p y) where
  created_backing-IsBacking :
      (bo_sz sz self : ℕ) (r : VkResult) (o : Option PrivBo) (l' : Log) (refs : Refs) (x : ℕ)
      → held l memory self ≡ 0
      → ((y : ℕ) → IsOutcome self bo_sz (r, o) l l' y)
      → IsBacking p (created_backing o dev bo_sz sz p refs k l') l x
  unfolding created_backing
  created_backing-IsBacking bo_sz sz self r none l' refs x u out =
      ((refl, (out x).1), (refl, refl, inr (refl, refl)))
  created_backing-IsBacking bo_sz sz self r (some b) l' refs x u out =
      let refs' = set_ref b.self b.refcnt refs in
      let t = settle dev bo_sz sz b p refs' k l' in
      let s = settle-IsKept dev k l' bo_sz sz b p refs' owns in
      IsBacking-of_kept p p b t l l' x refl refl refl refl
        (IsPicked-of_outcome p t.0.1 b self bo_sz r l l' x u free out s.2) s

  create_backing-IsBacking :
      (bo_sz sz : ℕ) (refs : Refs) (x : ℕ)
      → IsBacking p (create_backing dev bo_sz sz p refs k l) l x
  unfolding create_backing
  create_backing-IsBacking bo_sz sz refs x =
      let c = priv_bo_create dev bo_sz p.create_flags k l in
      created_backing-IsBacking bo_sz sz (self_of (k l Call.alloc)) c.0.0 c.0.1 c.1 refs x (law l)
        (λ y. priv_bo_create-IsOutcome dev k y bo_sz p.create_flags l)

  -- a buffer of a free list, and the pool without it
  taken-IsBacking :
      (bo_sz sz : ℕ) (b : PrivBo) (p1 : Pool) (refs : Refs) (x : ℕ)
      → p1.owns_bos ≡ p.owns_bos
      → p1.slab_size ≡ p.slab_size
      → p1.transient_bo ≡ p.transient_bo
      → p1.transient_offset ≡ p.transient_offset
      → ((y : ℕ) → free_count y p ≡ one_at b.self y + free_count y p1)
      → IsBacking p (settle dev bo_sz sz b p1 refs k l) l x
  taken-IsBacking bo_sz sz b p1 refs x o z t u taken =
      let r = settle dev bo_sz sz b p1 refs k l in
      let s = settle-IsKept dev k l bo_sz sz b p1 refs (o ∙ owns) in
      IsBacking-of_kept p p1 b r l l x o z t u (IsPicked-of_taken p p1 r.0.1 b l x taken free s.2) s

  big_backing-IsBacking :
      (bo_sz sz : ℕ) (t : Option (PrivBo × List PrivBo)) (refs : Refs) (x : ℕ)
      → ((y : ℕ) → IsTaken t p.big_bo_pool y)
      → IsBacking p (big_backing t dev bo_sz sz p refs k l) l x
  unfolding big_backing
  big_backing-IsBacking bo_sz sz none refs x taken = create_backing-IsBacking bo_sz sz refs x
  big_backing-IsBacking bo_sz sz (some (b, bs)) refs x taken =
      taken-IsBacking bo_sz sz b (record p { big_bo_pool = some bs }) refs x refl refl refl refl
        (λ y. count_big b bs p y (taken y))

  free_backing-IsBacking :
      (bo_sz sz : ℕ) (t : Option (PrivBo × List PrivBo)) (refs : Refs) (x : ℕ)
      → ((y : ℕ) → IsTaken t p.bo_pool y)
      → IsBacking p (free_backing t dev bo_sz sz p refs k l) l x
  unfolding free_backing
  free_backing-IsBacking bo_sz sz none refs x taken =
      big_backing-IsBacking bo_sz sz (take_big_opt bo_sz p.big_bo_pool) refs x
        (take_big_opt-IsTaken bo_sz p.big_bo_pool)
  free_backing-IsBacking bo_sz sz (some (b, bs)) refs x taken =
      taken-IsBacking bo_sz sz b (record p { bo_pool = some bs }) refs x refl refl refl refl
        (λ y. count_small b bs p y (taken y))

  -- al
  pub alloc_backing-IsBacking :
      (sz : ℕ) (refs : Refs) (x : ℕ) → IsBacking p (alloc_backing dev sz p refs k l) l x
  unfolding alloc_backing
  alloc_backing-IsBacking sz refs x =
      let bo_sz = backing_size dev sz p in
      free_backing-IsBacking bo_sz sz (take_free bo_sz p.slab_size p.bo_pool) refs x
        (take_free-IsTaken bo_sz p.slab_size p.bo_pool)
