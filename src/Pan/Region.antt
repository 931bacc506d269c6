-- ===== src/Pan/Region.antt =====
-- What the backend of pan_kmod.c gives back, and what it keeps.
use pan_vk_kbase.Prelude.{
  ℕ, zero, suc, ◌+◌, ◌-◌, ◌^◌, ◌<◌, ◌≡◌, ap, ◌∙◌, sym, subst, true, false, Option, none, some,
  arith,
}
use pan_vk_kbase.Flags.{BoFlags}
use pan_vk_kbase.Kernel.{Kernel, Log, Call, Out, ok, M, pure, ◌>>=◌}
use pan_vk_kbase.Kernel.Ledger.{Kind, held, one, one_self, memory, region}
use pan_vk_kbase.Pan.{
  PanBo, kbase_bo_alloc, kbase_bo_free, bo_put, CsQueue, ring_req, create_bound, create_user_io,
  cs_queue_create, cs_queue_destroy,
}

-- An object that kbase_bo_alloc allocated and pan_kmod_bo_put releases leaves the region of its
-- memory held, and everything else as it was before the allocation.
bo_put-leaves_region :
    (size : ℕ) (f : BoFlags) (b : PanBo) (k : Kernel) (l : Log) (κ : Kind) (x : ℕ)
    → (kbase_bo_alloc size f k l).0 ≡ some b
    → held (bo_put b k (kbase_bo_alloc size f k l).1).1 κ x ≡ held l κ x + one region b.priv κ x
unfolding kbase_bo_alloc bo_put kbase_bo_free
bo_put-leaves_region size f b k l κ x e = ground arith

-- as many references given up, one after another
put_all : ℕ → PanBo → M (Option PanBo)
put_all zero b = pure (some b)
put_all (suc n) b = do rest ← bo_put b; elim rest [ none ↦ pure none | some b' ↦ put_all n b' ]

bo_put-keeps :
    (b : PanBo) (k : Kernel) (l : Log)
    → 1 < b.refcnt
    → b.refcnt < 2 ^ 32
    → bo_put b k l ≡ (some (record b { refcnt = b.refcnt - 1 }), l)
unfolding bo_put
bo_put-keeps b k l h small = ground arith

put_all-suc :
    (n : ℕ) (b : PanBo) (k : Kernel) (l : Log)
    → 1 < b.refcnt
    → b.refcnt < 2 ^ 32
    → put_all (suc n) b k l ≡ put_all n (record b { refcnt = b.refcnt - 1 }) k l
unfolding put_all
put_all-suc n b k l h small =
    ap
      (λ (r : Option PanBo × Log).
        (elim r.0 as (λ x. M (Option PanBo)) [ none ↦ pure none | some b' ↦ put_all n b' ]) k r.1)
      (bo_put-keeps b k l h small)

put_all-keeps :
    (n : ℕ) (b : PanBo) (k : Kernel) (l : Log)
    → b.refcnt ≡ suc n
    → suc n < 2 ^ 32
    → put_all n b k l ≡ (some (record b { refcnt = 1 }), l)
unfolding put_all
put_all-keeps zero b k l e small = ground arith
put_all-keeps (suc n) b k l e small =
    put_all-suc n b k l (omega arith) (omega arith)
    ∙ (put_all-keeps n (record b { refcnt = b.refcnt - 1 }) k l (omega arith) (omega arith))

put_all-last :
    (n : ℕ) (b : PanBo) (k : Kernel) (l : Log) (κ : Kind) (x : ℕ)
    → b.refcnt ≡ suc n
    → suc n < 2 ^ 32
    → ((put_all (suc n) b k l).0 ≡ none)
      × (held (put_all (suc n) b k l).1 κ x ≡ held l κ x - one memory b.self κ x)
unfolding put_all bo_put kbase_bo_free
put_all-last zero b k l κ x e small = (ground arith, ground arith)
put_all-last (suc n) b k l κ x e small =
    subst
      (λ (r : Option PanBo × Log).
        (r.0 ≡ none) × (held r.1 κ x ≡ held l κ x - one memory b.self κ x))
      (sym (put_all-suc (suc n) b k l (omega arith) (omega arith)))
      (put_all-last n (record b { refcnt = b.refcnt - 1 }) k l κ x (omega arith) (omega arith))

-- For an object with a reference count from 1 to below 2 ^ 32, giving up all references but the
-- last leaves the object with count 1 and makes no call; giving up the last leaves none, and one
-- hold of its memory less.
put_all-refcnt :
    (n : ℕ) (b : PanBo) (k : Kernel) (l : Log) (κ : Kind) (x : ℕ)
    → b.refcnt ≡ suc n
    → suc n < 2 ^ 32
    → (put_all n b k l ≡ (some (record b { refcnt = 1 }), l))
      × ((put_all (suc n) b k l).0 ≡ none)
      × (held (put_all (suc n) b k l).1 κ x ≡ held l κ x - one memory b.self κ x)
unfolding put_all
put_all-refcnt n b k l κ x e small =
    let last = put_all-last n b k l κ x e small in (put_all-keeps n b k l e small, last.0, last.1)

-- A queue that was not there, was created and then destroyed leaves the region of its ring held
-- more often than before, where the kernel made that no SAME_VA one.
cs_queue_destroy-leaves_region :
    (group : ℕ) (q q' : CsQueue) (o : Out) (k : Kernel) (l : Log)
    → q.created ≡ false
    → k l (Call.mem_alloc ring_req) ≡ ok o
    → o.flags.same_va ≡ false
    → (cs_queue_create group q k l).0 ≡ (true, q')
    → held l region o.value
      < held (cs_queue_destroy q' k (cs_queue_create group q k l).1).1 region o.value
unfolding cs_queue_create create_user_io create_bound kbase_bo_alloc cs_queue_destroy
cs_queue_destroy-leaves_region group q q' o k l c r s e = ground (arith, one_self region o.value)
