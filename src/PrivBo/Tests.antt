-- ===== src/PrivBo/Tests.antt =====
-- Runs of the definitions of PrivBo, and its theorems at concrete inputs.
use pan_vk_kbase.Prelude.{◌+◌, ◌≡◌, refl, true, none, some, [], arith}
use pan_vk_kbase.Flags.{no_bo_flags}
use pan_vk_kbase.Kernel.{Log, Call}
use pan_vk_kbase.Kernel.Ledger.{held, mapping}
use pan_vk_kbase.Kernel.Sample.{sample}
use pan_vk_kbase.Pan.{kbase_bo_alloc, kbase_bo_get_mmap_offset}
use pan_vk_kbase.Pan.Space.{PanVm, pan_bo_alloc, pan_vm_bind, bind_type}
use pan_vk_kbase.Pan.Binding.{HeapLaw}
use pan_vk_kbase.PrivBo.{
  PanvkDev, PrivBo, vk_success, priv_bo_create, create_at, create_from, create_mapped,
  create_unless_null, create_passed, create_tested, cpu_test, bo_mmap, priv_va, priv_bo_destroy,
  priv_bo_ref, priv_bo_unref,
}
use pan_vk_kbase.PrivBo.Lifetime.{
  SameVaLaw, range_of, priv_bo_destroy-priv_bo_create, priv_bo_unref-priv_bo_ref,
}
use pan_vk_kbase.PrivBo.Outcome.{IsOutcome, self_of, priv_bo_create-IsOutcome}

abbrev sample_vm : PanVm
sample_vm = record { self = 1; auto_va = true; pgsize_bitmap = 1; sparse_dummy = none }

abbrev sample_panvk : PanvkDev
sample_panvk = record { vm = sample_vm; priv_heap = 2; choose_alignment = λ size. 4096 }

sample-HeapLaw : HeapLaw sample
sample-HeapLaw l heap size alignment = omega arith

sample-SameVaLaw : SameVaLaw sample
sample-SameVaLaw l size = refl

abbrev made : PrivBo
made = record {
  self = 4096;
  refcnt = 0;
  bo = record {
    self = 12288;
    size = 5000;
    flags = record no_bo_flags { io_coherent = true };
    handle = 8192;
    refcnt = 1;
    priv = 8192;
  };
  dev_addr = 0x12345678 + 4096;
  host = some 16384;
}

create-made : (priv_bo_create sample_panvk 5000 no_bo_flags sample []).0 ≡ (vk_success, some made)
unfolding priv_bo_create create_at create_from create_mapped create_unless_null create_passed
    create_tested cpu_test bo_mmap priv_va pan_bo_alloc kbase_bo_alloc kbase_bo_get_mmap_offset
    pan_vm_bind bind_type
create-made = refl

abbrev after_create : Log
after_create = (priv_bo_create sample_panvk 5000 no_bo_flags sample []).1

priv_bo_destroy-priv_bo_create_example :
    held (priv_bo_destroy sample_panvk made sample after_create).1 mapping 16384
    ≡ held [] mapping 16384 + range_of made.dev_addr mapping 16384
priv_bo_destroy-priv_bo_create_example =
    priv_bo_destroy-priv_bo_create sample sample-SameVaLaw sample-HeapLaw sample_panvk refl 5000
      no_bo_flags [] made create-made mapping 16384

priv_bo_unref-priv_bo_ref_example :
    priv_bo_unref sample_panvk (priv_bo_ref made) sample after_create
    ≡ (none, (priv_bo_destroy sample_panvk (priv_bo_ref made) sample after_create).1)
priv_bo_unref-priv_bo_ref_example =
    priv_bo_unref-priv_bo_ref sample sample-SameVaLaw sample-HeapLaw sample_panvk refl 5000
      no_bo_flags [] made create-made after_create

priv_bo_create-IsOutcome_example :
    IsOutcome
      (self_of (sample [] Call.alloc))
      5000
      (priv_bo_create sample_panvk 5000 no_bo_flags sample []).0
      []
      after_create
      4096
priv_bo_create-IsOutcome_example =
    priv_bo_create-IsOutcome sample_panvk sample 4096 5000 no_bo_flags []
