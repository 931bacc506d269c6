-- ===== src/DescriptorPool/Tests.antt =====
-- Runs of the definitions of DescriptorPool, and its theorems at concrete inputs.
use pan_vk_kbase.Prelude.{ℕ, ◌<◌, ◌≡◌, ◌≢◌, refl, true, false, none, List, [], ◌∷◌, arith}
use pan_vk_kbase.Flags.{no_bo_flags}
use pan_vk_kbase.Kernel.{ok, Call, Log, Out}
use pan_vk_kbase.Kernel.Ledger.{held, range, memory, one}
use pan_vk_kbase.Kernel.Sample.{sample}
use pan_vk_kbase.PrivBo.{PanvkDev, vk_success, vk_error_out_of_pool_memory}
use pan_vk_kbase.DescriptorLayout.{DescriptorType, Layout, no_binding}
use pan_vk_kbase.DescriptorPool.{
  DescriptorPool, Request, allocate_sets, allocate_next, allocate_set, allocate_first,
  allocate_range, num_descs, first_free, free_sets, free_set, free_set_if, free_range, reset_pool,
}
use pan_vk_kbase.DescriptorPool.Create.{CreateInfo, empty_pool, count_descs}
use pan_vk_kbase.DescriptorPool.Run.{
  PoolOp, allocate_op, free_op, pool_run, pool_step, free_if, reset_pool-pool_run,
}
use pan_vk_kbase.DescriptorPool.Batch.{allocate_sets-free_sets}
use pan_vk_kbase.DescriptorPool.Life.{pool_life, with_memory-IsPool, held-pool_life}

abbrev sample_pool_dev : PanvkDev
sample_pool_dev = record {
  vm = record { self = 1; auto_va = true; pgsize_bitmap = 4096; sparse_dummy = none };
  priv_heap = 2;
  choose_alignment = λ size. 4096;
}

-- two sets in 512 bytes of host memory
abbrev sample_pool : DescriptorPool
sample_pool = record (empty_pool 16 2) { host_only_mem = 64; free_size = 512 }

abbrev layout_of_size : ℕ → Layout
layout_of_size n = record {
  desc_count = n;
  dyn_buf_count = 0;
  dyn_ssbos = λ i. false;
  binding_count = 0;
  bindings = λ i. no_binding;
}

abbrev three_ops : List PoolOp
three_ops = allocate_op (layout_of_size 4) 0 ∷ allocate_op (layout_of_size 6) 0 ∷ free_op 1 ∷ []

-- The first set keeps its range until the reset.
three_ops-held :
    let r = pool_run three_ops sample_pool sample [] in
    (held r.1 range 4096 ≡ 1) × (held r.1 range 8192 ≡ 0) × (r.0.free_size ≡ 384)
unfolding pool_run pool_step allocate_set allocate_first allocate_range num_descs first_free free_if
    free_set free_set_if free_range one
three_ops-held = (refl, refl, refl)

reset_pool-pool_run_example :
    let r = pool_run three_ops sample_pool sample [] in
    held (reset_pool r.0 sample r.1).1 range 4096 ≡ 0
reset_pool-pool_run_example =
    reset_pool-pool_run sample 0 range 4096 three_ops sample_pool []
      (with_memory-IsPool sample range 4096 sample_pool_dev 16 2 64 512 [] (omega arith))

-- three sets where there are two
abbrev three_requests : List Request
three_requests =
    record { layout = layout_of_size 2; variable_count = 0 }
    ∷ record { layout = layout_of_size 3; variable_count = 0 }
    ∷ record { layout = layout_of_size 1; variable_count = 0 }
    ∷ []

three_requests-result :
    (allocate_sets three_requests [] sample_pool sample []).0.0.0 ≡ vk_error_out_of_pool_memory
unfolding allocate_sets allocate_next allocate_set allocate_first allocate_range num_descs
    first_free free_sets free_set free_set_if free_range
three_requests-result = refl

three_requests-failed : (allocate_sets three_requests [] sample_pool sample []).0.0.0 ≢ vk_success
three_requests-failed e = ground (arith, e, three_requests-result)

allocate_sets-free_sets_example :
    (allocate_sets three_requests [] sample_pool sample []).0.1.free_sets 1
    ≡ sample_pool.free_sets 1
allocate_sets-free_sets_example =
    allocate_sets-free_sets sample three_requests sample_pool [] three_requests-failed 1

abbrev sample_info : CreateInfo
sample_info = record {
  host_only = true;
  max_sets = 2;
  pool_sizes = record { type = DescriptorType.uniform_buffer; descriptor_count = 14 } ∷ [];
}

sample-alloc : (l : Log) (o : Out) → sample l Call.alloc ≡ ok o → 0 < o.value
sample-alloc l o e = ground (arith, e)

sample_info-count : count_descs sample_info.pool_sizes 0 ≢ 0
unfolding count_descs
sample_info-count e = omega (arith, e)

held-pool_life_example :
    held (pool_life sample_pool_dev no_bo_flags sample_info three_ops sample []).1 memory 4096
    ≡ held [] memory 4096
held-pool_life_example =
    held-pool_life sample memory 4096 sample_pool_dev three_ops no_bo_flags sample_info []
      sample-alloc refl sample_info-count
