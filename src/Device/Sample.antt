-- ===== src/Device/Sample.antt =====
-- A device to run the definitions on.
use pan_vk_kbase.Prelude.{true, false, some, none}
use pan_vk_kbase.Flags.{no_bo_flags}
use pan_vk_kbase.Device.{Device, Props, Csif, Kcpu}

abbrev sample_props : Props
sample_props = record {
  gpu_id = 0xa8670000;
  gpu_variant = 0;
  shader_present = 0x50005;
  tiler_features = 0;
  mem_features = 0;
  mmu_features = 48;
  texture_features_0 = 0;
  texture_features_1 = 0;
  texture_features_2 = 0;
  texture_features_3 = 0;
  afbc_features = 0;
  max_threads_per_core = 2048;
  max_threads_per_wg = 1024;
  max_tasks_per_core = 1;
  num_registers_per_core = 65536;
  max_tls_instance_per_core = 2048;
  is_io_coherent = false;
  gpu_can_query_timestamp = true;
  timestamp_device_coherent = false;
  timestamp_frequency = 0;
  allow_priority_low = true;
  allow_priority_medium = true;
  pgsize_bitmap = 0x1000;
  supported_bo_flags = no_bo_flags;
}

abbrev sample_csif : Csif
sample_csif = record {
  csg_slot_count = 8;
  cs_slot_count = 8;
  cs_reg_count = 96;
  scoreboard_slot_count = 8;
  unpreserved_cs_reg_count = 4;
}

abbrev pub sample_kcpu : Kcpu
sample_kcpu = record {
  id = 5;
  valid = true;
  pending = false;
  addr = 0;
  target_minus_one = 0;
  fence_fd = none;
}

-- a CSF device of driver version 1.30 with a dma-heap and a KCPU queue
abbrev pub sample_device : Device
sample_device = record {
  self = 0x1000;
  fd = 3;
  owns_fd = true;
  sync_through_kernel = false;
  driver = record { major = 1; minor = 30 };
  props = sample_props;
  is_csf = true;
  csif_info = sample_csif;
  tracking_page = some 0x2000;
  user_reg_page = some 0x3000;
  next_handle = 1;
  dma_heap_fd = some 4;
  csf_error = false;
  kcpu = sample_kcpu;
}
