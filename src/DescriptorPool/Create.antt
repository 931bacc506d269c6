-- ===== src/DescriptorPool/Create.antt =====
-- How pools of descriptor sets are made and destroyed, in the same file. A pool and its arrays are
-- one piece of memory, and its heap of addresses goes by the address of the pool.
use pan_vk_kbase.Prelude.{
  ℕ, zero, suc, ◌+◌, ◌*◌, ◌%◌, ◌^◌, Bool, true, false, Option, none, some, List, [], ◌∷◌, ◌==◌,
  if◌then◌else◌,
}
use pan_vk_kbase.Flags.{BoFlags}
use pan_vk_kbase.Kernel.{Call, Reply, ok, fail, M, call, own_call, pure, ◌>>=◌, ◌>>◌}
use pan_vk_kbase.PrivBo.{
  PanvkDev, PrivBo, VkResult, vk_success, vk_error_out_of_host_memory, priv_bo_create,
  priv_bo_unref,
}
use pan_vk_kbase.DescriptorLayout.{DescriptorType, is_dynamic, desc_stride}
use pan_vk_kbase.DescriptorPool.{no_set, PoolBo, DescriptorPool, set_count, descs_size, free_from}

-- VkDescriptorPoolSize
pub record PoolSize : Type 0 where
  pub type : DescriptorType
  pub descriptor_count : ℕ

-- VkDescriptorPoolCreateInfo
pub record CreateInfo : Type 0 where
  pub host_only : Bool
  pub max_sets : ℕ
  pub pool_sizes : List PoolSize

-- The loop on the sizes: 3 textures, PANVK_MAX_PLANES, and 2 samplers, PANVK_MAX_DESCS_PER_SAMPLER.
unfoldable pub count_descs : List PoolSize → (desc_count : ℕ) → ℕ
count_descs [] n = n
count_descs (s ∷ ss) n =
    count_descs ss
      (if is_dynamic s.type then n else (n + desc_stride s.type 3 2 * s.descriptor_count) % 2 ^ 32)

-- the pool before it has memory
abbrev pub empty_pool : (self max_sets : ℕ) → DescriptorPool
empty_pool self n = record {
  self = self;
  desc_bo = none;
  host_only_mem = 0;
  heap = self;
  free_size = 0;
  free_sets = set_count n (λ i. false);
  max_sets = n;
  sets = λ i. no_set;
}

-- by whether the pool has a buffer, then by its memory
unfoldable pub destroy_memory :
    Option PoolBo → (host_only_mem : ℕ) → PanvkDev → (heap : ℕ) → M (Unit {0})
unfolding priv_bo_unref
destroy_memory (some b) mem dev heap = do
  own_call (Call.vma_finish heap)
  priv_bo_unref dev b.bo
  pure tt
destroy_memory none zero dev heap = pure tt
destroy_memory none (suc mem) dev heap = do
  own_call (Call.vma_finish heap)
  own_call (Call.free (suc mem))

-- panvk_destroy_descriptor_pool
unfoldable pub destroy_pool : PanvkDev → DescriptorPool → M (Unit {0})
unfolding free_from destroy_memory
destroy_pool dev p = do
  p' ← free_from p.max_sets 0 p
  destroy_memory p'.desc_bo p'.host_only_mem dev p'.heap
  own_call (Call.free p'.self)

abbrev pub host_of : Option ℕ → ℕ
host_of none = 0
host_of (some a) = a

-- by the private buffer that was made
unfoldable pub with_bo : VkResult → Option PrivBo → DescriptorPool → M (VkResult × DescriptorPool)
with_bo r none p = pure (r, p)
with_bo r (some b) p = do
  own_call (Call.vma_init p.heap b.dev_addr b.bo.size)
  pure (
    vk_success,
    record p { desc_bo = some (record { bo = b; host = host_of b.host }); free_size = b.bo.size },
  )

-- by the reply of the memory allocator
unfoldable pub with_memory :
    Reply → (pool_size : ℕ) → DescriptorPool → M (VkResult × DescriptorPool)
with_memory (fail e) size p = pure (vk_error_out_of_host_memory, p)
with_memory (ok o) size p = do
  own_call (Call.vma_init p.heap o.value size)
  pure (vk_success, record p { desc_bo = none; host_only_mem = o.value; free_size = size })

-- panvk_init_pool_memory, by whether the pool is for the host only. `flags` is what
-- panvk_device_adjust_bo_flags makes of a cached mapping.
unfoldable pub init_pool_memory :
    (host_only : Bool)
    → PanvkDev
    → (flags : BoFlags) → (pool_size : ℕ) → DescriptorPool
    → M (VkResult × DescriptorPool)
unfolding priv_bo_create with_bo with_memory
init_pool_memory false dev flags size p = do r ← priv_bo_create dev size flags; with_bo r.0 r.1 p
init_pool_memory true dev flags size p = do a ← call Call.alloc; with_memory a size p

-- a pool, unless its memory failed
unfoldable pub keep_pool :
    VkResult → PanvkDev → DescriptorPool → M (VkResult × Option DescriptorPool)
unfolding destroy_pool
keep_pool vk_success dev p = pure (vk_success, some p)
keep_pool r dev p = do destroy_pool dev p; pure (r, none)

-- by whether there are no descriptors. There is a dummy sampler more to each set.
unfoldable pub create_memory :
    (is_empty : Bool)
    → PanvkDev
    → (flags : BoFlags) → CreateInfo
    → (desc_count : ℕ) → DescriptorPool
    → M (VkResult × Option DescriptorPool)
unfolding init_pool_memory keep_pool
create_memory true dev flags info n p = pure (vk_success, some p)
create_memory false dev flags info n p = do
  r ← init_pool_memory info.host_only dev flags (descs_size ((n + p.max_sets) % 2 ^ 32)) p
  keep_pool r.0 dev r.1

-- by the reply of the memory allocator
unfoldable pub create_pool_at :
    Reply → PanvkDev → (flags : BoFlags) → CreateInfo → M (VkResult × Option DescriptorPool)
unfolding count_descs create_memory
create_pool_at (fail e) dev flags info = pure (vk_error_out_of_host_memory, none)
create_pool_at (ok o) dev flags info =
    let n = count_descs info.pool_sizes 0 in
    create_memory (n == 0) dev flags info n (empty_pool o.value info.max_sets)

-- panvk_per_arch(CreateDescriptorPool)
unfoldable pub create_pool :
    PanvkDev → (flags : BoFlags) → CreateInfo → M (VkResult × Option DescriptorPool)
unfolding create_pool_at
create_pool dev flags info = do a ← call Call.alloc; create_pool_at a dev flags info

-- panvk_per_arch(DestroyDescriptorPool), where there may be no pool
unfoldable pub destroy_pool_opt : PanvkDev → Option DescriptorPool → M (Unit {0})
unfolding destroy_pool
destroy_pool_opt dev none = pure tt
destroy_pool_opt dev (some p) = destroy_pool dev p
