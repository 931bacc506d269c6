-- ===== src/DeviceMemory/Tests.antt =====
-- Runs of the definitions of DeviceMemory, and its theorems at concrete inputs.
use pan_vk_kbase.Prelude.{◌+◌, ◌≡◌, refl, true, false, none, some, [], ◌∷◌, arith}
use pan_vk_kbase.Flags.{no_bo_flags}
use pan_vk_kbase.Kernel.{Log}
use pan_vk_kbase.Kernel.Ledger.{held, one, mapping, region}
use pan_vk_kbase.Kernel.Sample.{sample}
use pan_vk_kbase.Pan.{kbase_bo_alloc, kbase_bo_get_mmap_offset}
use pan_vk_kbase.Pan.Space.{PanVm, pan_bo_alloc, pan_vm_bind, bind_type}
use pan_vk_kbase.Pan.Binding.{HeapLaw}
use pan_vk_kbase.PrivBo.{vk_success, vk_error_invalid_external_handle, bo_mmap}
use pan_vk_kbase.PrivBo.Lifetime.{SameVaLaw, range_of}
use pan_vk_kbase.DeviceMemory.{
  MemDev, DeviceMemory, AllocateInfo, memory_va, choose_va, as_alloc, allocate_at, allocate_from,
  allocate_object, allocate_object_if, allocate_unless, allocate_memory, mmap_for, map_if,
  map_memory, free_memory,
}
use pan_vk_kbase.DeviceMemory.Mapping.{map_op, unmap_op, map_run, reserved_by}
use pan_vk_kbase.DeviceMemory.Lifetime.{free_memory-map_run}
use pan_vk_kbase.DeviceMemory.Outcome.{IsOutcome, allocate_memory-IsOutcome}

abbrev sample_memory_vm : PanVm
sample_memory_vm = record { self = 1; auto_va = true; pgsize_bitmap = 1; sparse_dummy = none }

abbrev sample_dev : MemDev
sample_dev = record {
  vm = sample_memory_vm;
  heap = 2;
  fixed_heap = 3;
  arch = 10;
  choose_alignment = λ size. 4096;
  supports_wb_mmap = true;
  supports_gpu_uncached = false;
  debug_dump = false;
  debug_trace = false;
  debug_no_wb_mmap = false;
}

-- the same without AUTO_VA
abbrev fixed_dev : MemDev
fixed_dev = record sample_dev { vm = record sample_memory_vm { auto_va = false } }

abbrev plain_info : AllocateInfo
plain_info = record {
  size = 70000;
  host_cached = true;
  exports = false;
  exports_unknown = false;
  import_fd = none;
  replay = false;
  capture_address = 0;
}

abbrev plain_memory : DeviceMemory
plain_memory = record {
  self = 4096;
  bo = record {
    self = 12288;
    size = 70000;
    flags = record no_bo_flags { wb_mmap = true; io_coherent = true };
    handle = 8192;
    refcnt = 1;
    priv = 8192;
  };
  dev_addr = 16384;
  host = 0;
  replay = false;
}

allocate-plain_memory :
    (allocate_memory sample_dev plain_info 5 sample []).0 ≡ (vk_success, some plain_memory, 70005)
unfolding allocate_memory allocate_unless allocate_object_if allocate_object allocate_from memory_va
    allocate_at pan_bo_alloc kbase_bo_alloc pan_vm_bind bind_type
allocate-plain_memory = refl

-- a memory from a heap of addresses
allocate-fixed_memory :
    (allocate_memory fixed_dev plain_info 5 sample []).0 ≡ (vk_success, some plain_memory, 70005)
unfolding allocate_memory allocate_unless allocate_object_if allocate_object allocate_from memory_va
    choose_va as_alloc allocate_at pan_bo_alloc kbase_bo_alloc pan_vm_bind bind_type
allocate-fixed_memory = refl

-- an import, which the stub refuses
allocate-import :
    (allocate_memory sample_dev (record plain_info { import_fd = some 7 }) 5 sample []).0
    ≡ (vk_error_invalid_external_handle, none, 5)
unfolding allocate_memory allocate_unless allocate_object_if allocate_object allocate_from
allocate-import = refl

abbrev after_allocate : Log
after_allocate = (allocate_memory sample_dev plain_info 5 sample []).1

abbrev mapped_memory : DeviceMemory
mapped_memory = record plain_memory { host = 20480 }

map-plain_memory :
    (map_memory none 16 plain_memory sample after_allocate).0 ≡ (vk_success, 20496, mapped_memory)
unfolding allocate_memory allocate_unless allocate_object_if allocate_object allocate_from memory_va
    allocate_at pan_bo_alloc kbase_bo_alloc pan_vm_bind bind_type map_memory map_if mmap_for bo_mmap
    kbase_bo_get_mmap_offset
map-plain_memory = refl

sample_memory-HeapLaw : HeapLaw sample
sample_memory-HeapLaw l heap size alignment = omega arith

sample_memory-SameVaLaw : SameVaLaw sample
sample_memory-SameVaLaw l size = refl

other_mapping : one mapping 0 mapping 20480 ≡ 0
unfolding one
other_mapping = refl

placed_mapping : one mapping 65536 mapping 20480 ≡ 0
unfolding one
placed_mapping = refl

other_region : one region 8192 mapping 20480 ≡ 0
unfolding one
other_region = refl

free_memory-map_run_example :
    let r =
      map_run
        (map_op none 16 ∷ unmap_op true ∷ map_op (some 65536) 0 ∷ [])
        plain_memory
        sample
        after_allocate in
    held (free_memory sample_dev r.0 70005 sample r.1).1 mapping 20480
    ≡ held [] mapping 20480
      + range_of plain_memory.dev_addr mapping 20480
      + reserved_by sample
          (map_op none 16 ∷ unmap_op true ∷ map_op (some 65536) 0 ∷ [])
          plain_memory
          after_allocate
          mapping
          20480
free_memory-map_run_example =
    free_memory-map_run sample sample_memory-HeapLaw mapping 20480 sample_dev refl plain_info 5
      70005 [] plain_memory allocate-plain_memory
      (map_op none 16 ∷ unmap_op true ∷ map_op (some 65536) 0 ∷ []) 70005 other_mapping other_region
      (placed_mapping, tt)

allocate_memory-IsOutcome_example :
    IsOutcome 70000 5
      (allocate_memory fixed_dev plain_info 5 sample []).0
      []
      (allocate_memory fixed_dev plain_info 5 sample []).1
      4096
allocate_memory-IsOutcome_example = allocate_memory-IsOutcome sample 4096 fixed_dev plain_info 5 []
