-- ===== src/Bo/Tests.antt =====
-- Runs of the definitions of Bo, and its theorems at concrete inputs.
use pan_vk_kbase.Prelude.{◌+◌, ◌≡◌, refl, true, false, Option, none, some, List, [], ◌∷◌, arith}
use pan_vk_kbase.Flags.{no_bo_flags, BoFlags}
use pan_vk_kbase.Kernel.Ledger.{held, fd, mapping}
use pan_vk_kbase.Kernel.Sample.{sample, zone_sample, held-mapping_above}
use pan_vk_kbase.Device.{Bo, next_handle, bo_init_flags, version_at_least}
use pan_vk_kbase.Device.Sample.{sample_device}
use pan_vk_kbase.Dmabuf.{import_dmabuf, import_region, import_cpu, import_flags}
use pan_vk_kbase.Bo.{
  to_kbase_mem_flags, bo_alloc, bo_alloc_from, bo_alloc_kbase, bo_alloc_dmabuf, bo_free, bo_mmap,
  got,
}
use pan_vk_kbase.Bo.Owned.{owned_opt}
use pan_vk_kbase.Bo.Alloc.{Assumed, held-bo_alloc, bo_free-bo_alloc}
use pan_vk_kbase.Bo.Handles.{Request}
use pan_vk_kbase.Bo.Layout.{IsLaidOut, bo_alloc-IsLaidOut}

sample-Assumed : Assumed sample
sample-Assumed = record {
  imports = λ l n f. refl;
  maps = λ l n len. held-mapping_above l _ (omega arith);
}

abbrev exec_flags : BoFlags
exec_flags = record no_bo_flags { executable = true }

abbrev or_bo : Option Bo → Bo
or_bo (some b) = b
or_bo none = record {
  self = 0;
  exclusive_vm = none;
  size = 0;
  flags = no_bo_flags;
  handle = 0;
  refcnt = 0;
  gpu_va = 0;
  cpu_ptr = none;
  gpu_mapping = none;
  dmabuf_fd = none;
  owns_cpu_mapping = false;
  same_va = false;
}

-- five thousand bytes of the dma-heap, and of an exclusive object
abbrev shared_bo : Bo
unfolding bo_alloc bo_alloc_from bo_alloc_dmabuf import_dmabuf import_region import_cpu import_flags
    next_handle bo_init_flags
shared_bo = or_bo (bo_alloc sample_device none 5000 no_bo_flags sample []).0.0

abbrev own_bo : Bo
unfolding bo_alloc bo_alloc_from bo_alloc_kbase to_kbase_mem_flags next_handle bo_init_flags
    version_at_least
own_bo = or_bo (bo_alloc sample_device (some 7) 5000 no_bo_flags sample []).0.0

own_bo_size : own_bo.size ≡ 8192
unfolding own_bo bo_alloc bo_alloc_from bo_alloc_kbase to_kbase_mem_flags next_handle bo_init_flags
    version_at_least
own_bo_size = refl

own_bo_mmap : bo_mmap own_bo none ≡ got own_bo.gpu_va
unfolding bo_mmap own_bo bo_alloc bo_alloc_from bo_alloc_kbase
own_bo_mmap = refl

shared_bo_size : shared_bo.size ≡ 4096
unfolding shared_bo bo_alloc bo_alloc_from bo_alloc_dmabuf import_dmabuf import_region import_cpu
    import_flags
shared_bo_size = refl

held-bo_alloc_example :
    held (bo_alloc sample_device none 5000 no_bo_flags sample []).1 fd 8192
    ≡ held [] fd 8192
      + owned_opt (bo_alloc sample_device none 5000 no_bo_flags sample []).0.0 fd 8192
held-bo_alloc_example =
    held-bo_alloc sample_device sample sample-Assumed none 5000 no_bo_flags [] fd 8192

bo_free-bo_alloc_example :
    held
      (bo_free own_bo sample (bo_alloc sample_device (some 7) 5000 no_bo_flags sample []).1).1
      mapping
      12288
    ≡ held [] mapping 12288
unfolding own_bo bo_alloc bo_alloc_from bo_alloc_kbase to_kbase_mem_flags next_handle bo_init_flags
    version_at_least
bo_free-bo_alloc_example =
    bo_free-bo_alloc sample_device sample sample-Assumed (some 7) 5000 no_bo_flags [] own_bo refl
      mapping 12288

abbrev two_requests : List Request
two_requests =
    record { vm = some 7; size = 5000; flags = no_bo_flags }
    ∷ record { vm = none; size = 1; flags = exec_flags }
    ∷ []

abbrev zone_bo : Bo
unfolding import_region import_cpu import_flags next_handle bo_init_flags
zone_bo = or_bo (import_region sample_device none no_bo_flags true 16 9 zone_sample []).0.0

bo_alloc-IsLaidOut_example : IsLaidOut 5000 own_bo
unfolding own_bo bo_alloc bo_alloc_from bo_alloc_kbase to_kbase_mem_flags next_handle bo_init_flags
    version_at_least
bo_alloc-IsLaidOut_example =
    bo_alloc-IsLaidOut sample_device sample (some 7) 5000 no_bo_flags [] own_bo (omega arith) refl
      refl
