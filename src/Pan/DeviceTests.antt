-- ===== src/Pan/DeviceTests.antt =====
-- Runs of the device and the address space of pan_kmod.c's own backend, and the theorems on them at
-- concrete inputs.
use pan_vk_kbase.Prelude.{
  ◌+◌, ◌*◌, ◌^◌, ◌≡◌, refl, true, false, some, List, [], ◌∷◌, map, arith, if◌then◌else◌, ◌==◌,
  length,
}
use pan_vk_kbase.Flags.{no_bo_flags}
use pan_vk_kbase.Kernel.{Kernel, Call, fail, einval}
use pan_vk_kbase.Kernel.Ledger.{held, one, memory, group}
use pan_vk_kbase.Kernel.Sample.{sample}
use pan_vk_kbase.GpuProps.Encode.{Entry, encode, encode_entry}
use pan_vk_kbase.Pan.Device.{
  PanDev, PanProps, first_props, default_info, props_of, props_loop, set_prop, pan_dev_create,
  pan_dev_new, dev_flagged, dev_grouped, pan_query_csif, query_gpu_info, pan_query_props,
  pan_dev_destroy,
}
use pan_vk_kbase.Pan.Blob.{apply_all, props_of-encode}
use pan_vk_kbase.Pan.Closing.{pan_dev_destroy-leaves_group}
use pan_vk_kbase.Pan.Space.{PanVm, VmOp, op_map, pan_auto_va, pan_vm_bind, bind_type}
use pan_vk_kbase.Pan.Binding.{HeapLaw}

-- a kernel that refuses the first version check, which is the one on the caller's descriptor
abbrev refusing : Kernel
refusing l Call.version_check_csf =
    if length l == 1 then fail einval else sample l Call.version_check_csf
refusing l c = sample l c

abbrev entry_list : List Entry
entry_list =
    record { key = 18; size_code = 2; value = 1024 }
    ∷ record { key = 19; size_code = 0; value = 7 }
    ∷ record { key = 29; size_code = 3; value = 2 ^ 32 + 5 }
    ∷ []

abbrev no_props : PanProps
no_props = first_props default_info

props_of-entry_list :
    props_of (encode entry_list) no_props
    ≡ some (record no_props { max_threads_per_core = 1024; l2_features = 5 })
unfolding props_of props_loop set_prop encode encode_entry
props_of-entry_list = refl

props_of-encode_example :
    props_of (encode entry_list) no_props ≡ some (apply_all entry_list no_props)
props_of-encode_example = props_of-encode entry_list no_props (
  record { key_fits = omega arith; code_fits = omega arith; value_fits = omega arith },
  (
    record { key_fits = omega arith; code_fits = omega arith; value_fits = omega arith },
    (record { key_fits = omega arith; code_fits = omega arith; value_fits = omega arith }, tt),
  ),
)

sample-HeapLaw : HeapLaw sample
sample-HeapLaw l heap size alignment = omega arith

abbrev sample_vm : PanVm
sample_vm = record {
  self = 4096;
  auto_va = true;
  pgsize_bitmap = 1;
  sparse_dummy = some (record {
    self = 12288;
    size = 2 * 1024 * 1024;
    flags = record no_bo_flags { no_mmap = true; io_coherent = true };
    handle = 8192;
    refcnt = 1;
    priv = 8192;
  });
}

abbrev ops : List VmOp
ops =
    record { type = op_map; start = pan_auto_va; size = 5000 }
    ∷ record { type = op_map; start = 65536; size = 4096 }
    ∷ record { type = op_map; start = pan_auto_va; size = 4096 * 1024 }
    ∷ []

bound-ops :
    map (λ (o : VmOp). o.start) (pan_vm_bind sample_vm ops sample []).0 ≡ 4096 ∷ 65536 ∷ 8192 ∷ []
unfolding pan_vm_bind bind_type
bound-ops = refl

-- the device on /dev/mali0
abbrev mali_dev : PanDev
mali_dev = record {
  self = 16384;
  fd = 12288;
  owns_fd = true;
  driver = record { major = 1; minor = 0 };
  group = 32768;
  ctx = 28672;
  csif = record {
    csg_slot_count = 8;
    cs_slot_count = 8;
    cs_reg_count = 1;
    scoreboard_slot_count = 1;
    unpreserved_cs_reg_count = 4;
  };
  props = record (first_props default_info) { allow_priority_medium = true };
}

create-mali_dev : (pan_dev_create 7 false refusing []).0 ≡ some mali_dev
unfolding pan_dev_create pan_dev_new dev_flagged dev_grouped pan_query_csif query_gpu_info
    pan_query_props props_of props_loop set_prop
create-mali_dev = refl

pan_dev_destroy-leaves_group_example :
    let after = (pan_dev_destroy mali_dev refusing (pan_dev_create 7 false refusing []).1).1 in
    (held after memory 32768 ≡ held [] memory 32768)
    × (held after group 32768 ≡ held [] group 32768 + one group 32768 group 32768)
pan_dev_destroy-leaves_group_example =
    pan_dev_destroy-leaves_group 7 mali_dev refusing [] create-mali_dev 32768
