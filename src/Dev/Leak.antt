-- ===== src/Dev/Leak.antt =====
-- The path of `kbase_kmod_dev_create` for a GPU that it cannot identify, and what a device that it
-- returns is like.
use pan_vk_kbase.Prelude.{ℕ, ◌≡◌, ◌≢◌, none, some, List, arith}
use pan_vk_kbase.Kernel.{Kernel, Log}
use pan_vk_kbase.Kernel.Ledger.{held, one, mapping}
use pan_vk_kbase.Device.{Device}
use pan_vk_kbase.GpuProps.{Keys, query_props}
use pan_vk_kbase.Dev.{Env, dev_finish}

-- Where the properties give no GPU id, the rest of kbase_kmod_dev_create from the properties on
-- returns NULL, and leaves the USER register page, at another address than the tracking page, held
-- as often as before.
dev_finish-leaves_user_reg :
    (env : Env) (keys : Keys) (d : Device) (buf : ℕ) (bytes : List ℕ) (k : Kernel) (l : Log)
    (page tracking : ℕ)
    → (query_props keys bytes).gpu_id ≡ 0
    → d.user_reg_page ≡ some page
    → d.tracking_page ≡ some tracking
    → tracking ≢ page
    → let (made, l') = dev_finish env keys d buf bytes k l in
      (made ≡ none) × (held l' mapping page ≡ held l mapping page)
unfolding dev_finish one
dev_finish-leaves_user_reg env keys d buf bytes k l page tracking g u t ne =
    (ground arith, ground arith)
