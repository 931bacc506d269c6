-- ===== src/Pool/Reset.antt =====
-- The life of a pool around its allocations: panvk_pool_init, panvk_pool_reset, panvk_pool_cleanup,
-- and the handles of its buffers.
use pan_vk_kbase.Prelude.{ℕ, Bool, true, false, Option, none, some, List, [], ◌++◌, map}
use pan_vk_kbase.Flags.{BoFlags}
use pan_vk_kbase.Kernel.{M, pure, ◌>>=◌}
use pan_vk_kbase.PrivBo.{PanvkDev, PrivBo}
use pan_vk_kbase.Pool.{Pool, Refs, unref_all, unref_opt, alloc_backing}

-- struct panvk_pool_properties, less the label
pub record PoolProps : Type 0 where
  pub create_flags : BoFlags
  pub slab_size : ℕ
  pub owns_bos : Bool
  pub needs_locking : Bool
  pub prealloc : Bool

abbrev pub empty_pool : (bo_pool big_bo_pool : Option (List PrivBo)) → PoolProps → Pool
empty_pool bo_pool big_bo_pool props = record {
  slab_size = props.slab_size;
  create_flags = props.create_flags;
  owns_bos = props.owns_bos;
  needs_locking = props.needs_locking;
  bo_pool = bo_pool;
  big_bo_pool = big_bo_pool;
  bos = [];
  big_bos = [];
  bo_count = 0;
  transient_bo = none;
  transient_offset = 0;
}

-- panvk_pool_init
unfoldable pub pool_init :
    PanvkDev → (bo_pool big_bo_pool : Option (List PrivBo)) → PoolProps → Refs → M (Pool × Refs)
unfolding alloc_backing
pool_init dev bo_pool big_bo_pool props refs =
    let p = empty_pool bo_pool big_bo_pool props in
    elim props.prealloc [
      | false ↦ pure (p, refs)
      | true ↦ do (b, p', refs') ← alloc_backing dev props.slab_size p refs; pure (p', refs')
    ]

-- A list of a pool goes to the end of the free list, or its buffers lose a reference. The answer is
-- the free list.
unfoldable pub give_back :
    PanvkDev → List PrivBo → Option (List PrivBo) → Refs → M (Option (List PrivBo) × Refs)
unfolding unref_all
give_back dev bs (some free) refs = pure (some (free ++ bs), refs)
give_back dev bs none refs = do refs' ← unref_all dev bs refs; pure (none, refs')

-- panvk_pool_reset, which leaves the offset as it was
unfoldable pub pool_reset : PanvkDev → Pool → Refs → M (Pool × Refs)
unfolding give_back unref_opt
pool_reset dev p refs = do
  (free, refs1) ← give_back dev p.bos p.bo_pool refs
  (big_free, refs2) ← give_back dev p.big_bos p.big_bo_pool refs1
  refs3 ← elim p.owns_bos as (λ x. M Refs) [
    | true ↦ pure refs2
    | false ↦ unref_opt dev p.transient_bo refs2
  ]
  pure (
    record p {
      bo_pool = free;
      big_bo_pool = big_free;
      bos = [];
      big_bos = [];
      bo_count = 0;
      transient_bo = none;
    },
    refs3,
  )

-- panvk_pool_cleanup
unfoldable pub pool_cleanup : PanvkDev → Pool → Refs → M (Pool × Refs)
unfolding pool_reset
pool_cleanup dev p refs = pool_reset dev p refs

-- panvk_pool_get_bo_handles
abbrev pub get_bo_handles : Pool → List ℕ
get_bo_handles p =
    map (λ (b : PrivBo). b.bo.handle) p.bos ++ map (λ (b : PrivBo). b.bo.handle) p.big_bos
