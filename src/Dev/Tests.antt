-- ===== src/Dev/Tests.antt =====
-- Runs of the definitions of Dev, and its theorems at concrete inputs.
use pan_vk_kbase.Prelude.{◌+◌, ◌-◌, ◌≡◌, refl, false, true, [], some, none, Option, arith, inl, inr}
use pan_vk_kbase.Kernel.Ledger.{held, fd, mapping}
use pan_vk_kbase.Kernel.Sample.{sample}
use pan_vk_kbase.Device.{Device}
use pan_vk_kbase.Device.Sample.{sample_device}
use pan_vk_kbase.GpuProps.{Keys, query_props, get_gpuprops, gpuprop_get, gpuprop_loop, gpu_id_of}
use pan_vk_kbase.Csf.{query_csif_info, csif_fill}
use pan_vk_kbase.Dev.{
  Env, dma_heap_path, handshake, open_kcpu, dev_finish, dev_csf, dev_tracked, dev_mapped,
  dev_shaken, dev_create, dev_destroy,
}
use pan_vk_kbase.Dev.Held.{
  owned, owned_fd, owned_opt, held-dev_destroy, held-dev_create, dev_destroy-dev_create,
}

abbrev keys : Keys
keys = record {
  raw_gpu_id = 1;
  product_id = 2;
  major_revision = 3;
  minor_revision = 4;
  version_status = 5;
  raw_core_features = 6;
  raw_shader_present = 7;
  raw_tiler_features = 8;
  raw_mem_features = 9;
  raw_mmu_features = 10;
  raw_texture_features_0 = 11;
  raw_texture_features_3 = 14;
  raw_thread_max_threads = 15;
  raw_thread_max_workgroup_size = 16;
  raw_thread_features = 17;
  tls_alloc = 18;
  raw_coherency_mode = 19;
}

-- with the KCPU queue asked for
abbrev env : Env
env = record { user_cache_sync = none; dma_heap = some ""; kcpu_sync = some "1" }

abbrev or_sample : Option Device → Device
or_sample none = sample_device
or_sample (some d) = d

abbrev created : Device
unfolding dev_create dev_shaken dev_mapped dev_tracked dev_csf dev_finish open_kcpu handshake
created = or_sample (dev_create env keys 3 true false sample []).0

created_kcpu : created.kcpu.valid ≡ true
unfolding created dev_create dev_shaken dev_mapped dev_tracked dev_csf dev_finish open_kcpu
    handshake dma_heap_path query_csif_info csif_fill get_gpuprops query_props gpuprop_get
    gpuprop_loop gpu_id_of
created_kcpu = refl

held-dev_destroy_example :
    held (dev_destroy sample_device sample []).1 fd 3
    ≡ held [] fd 3 - owned sample_device fd 3 - owned_fd sample_device fd 3
held-dev_destroy_example = held-dev_destroy sample_device sample [] fd 3

held-dev_create_example :
    held (dev_create env keys 3 true false sample []).1 fd 4096
    ≡ held [] fd 4096 + owned_opt (dev_create env keys 3 true false sample []).0 fd 4096
held-dev_create_example =
    held-dev_create env keys 3 true false sample [] fd 4096 (inr (inl (λ e. ground arith)))

dev_destroy-dev_create_example :
    held (dev_destroy created sample (dev_create env keys 3 true false sample []).1).1 mapping 12288
    ≡ held [] mapping 12288 - owned_fd created mapping 12288
unfolding created dev_create dev_shaken dev_mapped dev_tracked dev_csf dev_finish open_kcpu
    handshake dma_heap_path query_csif_info csif_fill get_gpuprops query_props gpuprop_get
    gpuprop_loop gpu_id_of
dev_destroy-dev_create_example =
    dev_destroy-dev_create env keys 3 true false sample [] created refl mapping 12288
