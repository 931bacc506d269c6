-- ===== src/QueryPool/Create.antt =====
-- How query pools are made and destroyed, in the same files: the object, then the memory of the
-- reports and that of the availability, each of a pool of its own.
use pan_vk_kbase.Prelude.{ℕ, Bool, true, false, Option, none, some}
use pan_vk_kbase.Kernel.{Call, Reply, ok, fail, M, call, own_call, pure, ◌>>=◌, ◌>>◌}
use pan_vk_kbase.PrivBo.{
  PanvkDev, PrivBo, VkResult, vk_success, vk_error_out_of_host_memory,
  vk_error_out_of_device_memory,
}
use pan_vk_kbase.Pool.{Pool, Refs, PrivMem, alloc_mem}
use pan_vk_kbase.Pool.Free.{free_mem}
use pan_vk_kbase.QueryPool.{
  QueryType, QueryPool, query_pool, reports_size, available_size, reset_query_pool,
}

-- the two pools that are used, and the counts of their buffers
pub record Mempools : Type 0 where
  pub rw : Pool
  pub rw_nc : Pool
  pub refs : Refs

-- the query pool with its memory, and what the memory of the availability holds
pub record Queries : Type 0 where
  pub self : ℕ
  pub pool : QueryPool
  pub mem : PrivMem
  pub available_mem : PrivMem
  pub words : ℕ → ℕ

pub record CreateInfo : Type 0 where
  pub query_type : QueryType
  pub query_count : ℕ
  pub reset : Bool

abbrev pub Made : Type 0
Made = VkResult × Option Queries × Mempools

abbrev pub reset_if : Bool → (query_count : ℕ) → (ℕ → ℕ) → ℕ → ℕ
unfolding reset_query_pool
reset_if true n words = reset_query_pool 0 n words
reset_if false n words = words

-- by the memory of the availability
unfoldable pub with_available :
    Option PrivBo → PanvkDev → CreateInfo → (words : ℕ → ℕ) → Queries → Mempools → M Made
unfolding free_mem
with_available none dev info words q m = do
  refs ← free_mem dev q.mem m.refs
  own_call (Call.free q.self)
  pure (vk_error_out_of_device_memory, none, record m { refs = refs })
with_available (some b) dev info words q m =
    pure (vk_success, some (record q { words = reset_if info.reset q.pool.query_count words }), m)

-- by the memory of the reports. `words` is what the memory of the availability holds at first.
unfoldable pub with_reports :
    Option PrivBo
    → PanvkDev
    → (atom : ℕ) → CreateInfo
    → (words : ℕ → ℕ) → Queries
    → Mempools
    → M Made
unfolding alloc_mem with_available
with_reports none dev atom info words q m = do
  own_call (Call.free q.self)
  pure (vk_error_out_of_device_memory, none, m)
with_reports (some b) dev atom info words q m = do
  (mem, p, refs) ←
      alloc_mem dev atom (record { size = available_size q.pool; alignment = 64 }) m.rw_nc m.refs
  with_available mem.bo dev info words (record q { available_mem = mem })
      (record m { rw_nc = p; refs = refs })

-- by the reply of the memory allocator
unfoldable pub create_query_pool_at :
    Reply → PanvkDev → (atom : ℕ) → CreateInfo → (words : ℕ → ℕ) → Mempools → M Made
unfolding alloc_mem with_reports
create_query_pool_at (fail e) dev atom info words m = pure (vk_error_out_of_host_memory, none, m)
create_query_pool_at (ok o) dev atom info words m = do
  let pool = query_pool info.query_type info.query_count
  (mem, p, refs) ←
      alloc_mem dev atom (record { size = reports_size pool; alignment = 8 }) m.rw m.refs
  with_reports mem.bo dev atom info words
      (record { self = o.value; pool = pool; mem = mem; available_mem = mem; words = words })
      (record m { rw = p; refs = refs })

-- panvk_per_arch(CreateQueryPool)
unfoldable pub create_query_pool :
    PanvkDev → (atom : ℕ) → CreateInfo → (words : ℕ → ℕ) → Mempools → M Made
unfolding create_query_pool_at
create_query_pool dev atom info words m = do
  a ← call Call.alloc
  create_query_pool_at a dev atom info words m

-- panvk_per_arch(DestroyQueryPool), where there may be no pool
unfoldable pub destroy_query_pool : PanvkDev → Option Queries → Refs → M Refs
unfolding free_mem
destroy_query_pool dev none refs = pure refs
destroy_query_pool dev (some q) refs = do
  refs' ← free_mem dev q.mem refs
  refs'' ← free_mem dev q.available_mem refs'
  own_call (Call.free q.self)
  pure refs''
