-- ===== src/Pool/Free.antt =====
-- panvk_pool_free_mem of mesa_src/mesa_vulkan/panvk_mempool.h.
use pan_vk_kbase.Prelude.{Bool, true, false, Option, none, some}
use pan_vk_kbase.Kernel.{M, pure}
use pan_vk_kbase.PrivBo.{PanvkDev, PrivBo}
use pan_vk_kbase.Pool.{Refs, PrivMem, unref}

-- by the buffer, and whether the pool owns it
unfoldable pub free_mem_bo : Option PrivBo → (owned_by_pool : Bool) → PanvkDev → Refs → M Refs
unfolding unref
free_mem_bo none owned dev refs = pure refs
free_mem_bo (some b) true dev refs = pure refs
free_mem_bo (some b) false dev refs = unref dev b refs

-- The memory that is given back is not read again.
unfoldable pub free_mem : PanvkDev → PrivMem → Refs → M Refs
unfolding free_mem_bo
free_mem dev m refs = free_mem_bo m.bo m.owned_by_pool dev refs
