-- ===== src/GpuProps.antt =====
-- The GPU property blob of kbase_kmod.c: `kbase_gpuprop_get`, its fetch from the kernel, and
-- `kbase_dev_query_props`, with `pan_arch` of model/pan_model.h.
pub mod Encode
pub mod Lookup
pub mod Query
pub mod Tests
use pan_vk_kbase.Prelude.{
  ℕ, zero, suc, ◌+◌, ◌*◌, ◌/◌, ◌%◌, ◌^◌, Bool, true, false, not, ◌||◌, Option, none, some, List, [],
  ◌∷◌, max, ltb, leb, ◌==◌, if◌then◌else◌, length, take, drop,
}
use pan_vk_kbase.Flags.{BoFlags, no_bo_flags}
use pan_vk_kbase.Kernel
use pan_vk_kbase.Kernel.{Call, ok, fail, M, call, pure, ◌>>=◌, ◌>>◌}
use pan_vk_kbase.Device.{Props}

-- what memcpy() into a zeroed integer reads from a little-endian blob
abbrev pub le_value : List ℕ → ℕ
le_value [] = 0
le_value (b ∷ bs) = b + 256 * le_value bs

-- 1u << size_code
abbrev pub val_size : ℕ → ℕ
val_size c = 2 ^ c

-- The loop of kbase_gpuprop_get, on what is left of the blob. Each round takes at least the header,
-- so a number of rounds above the length is enough; `none` means that they ran out.
unfoldable pub gpuprop_loop : ℕ → (rest : List ℕ) → (target_key default_val : ℕ) → Option ℕ
gpuprop_loop zero rest key d = none
gpuprop_loop (suc n) rest key d =
    let hdr = le_value (take 4 rest) in
    let vals = drop 4 rest in
    let size = val_size (hdr % 4) in
    let next = gpuprop_loop n (drop size vals) key d in
    if ltb (length rest) 4
    then some d
    else if ltb (length vals) size
    then some d
    else if hdr / 4 == key
    then some (le_value (take size vals))
    else next

-- kbase_gpuprop_get
unfoldable pub gpuprop_get : (buf : List ℕ) → (target_key default_val : ℕ) → Option ℕ
gpuprop_get buf key d = gpuprop_loop (suc (length buf)) buf key d

-- the value, where `gpuprop_get` is known to return
abbrev pub or_zero : Option ℕ → ℕ
or_zero none = 0
or_zero (some v) = v

-- kbase_get_gpuprops: the buffer's address and its contents. The fill call writes `size` bytes.
unfoldable pub get_gpuprops : M (Option (ℕ × List ℕ))
get_gpuprops = do
  r ← call Call.gpuprops_probe
  elim r [
    | fail e ↦ pure none
    | ok size ↦ elim (size.value == 0) [
      | true ↦ pure none
      | false ↦ do
        a ← call Call.alloc
        elim a [
          | fail e ↦ pure none
          | ok buf ↦ do
            g ← call (Call.gpuprops_fill (size.value % 2 ^ 32))
            elim g [
              | fail e ↦ do call (Call.free buf.value); pure none
              | ok o ↦ pure (some (buf.value, take size.value o.bytes))
            ]
        ]
    ]
  ]

-- The KBASE_GPUPROP_* keys. The kernel header that numbers them is no part of the repository.
-- TEXTURE_FEATURES_0 to 2 follow one another.
pub record Keys : Type 0 where
  pub raw_gpu_id : ℕ
  pub product_id : ℕ
  pub major_revision : ℕ
  pub minor_revision : ℕ
  pub version_status : ℕ
  pub raw_core_features : ℕ
  pub raw_shader_present : ℕ
  pub raw_tiler_features : ℕ
  pub raw_mem_features : ℕ
  pub raw_mmu_features : ℕ
  pub raw_texture_features_0 : ℕ
  pub raw_texture_features_3 : ℕ
  pub raw_thread_max_threads : ℕ
  pub raw_thread_max_workgroup_size : ℕ
  pub raw_thread_features : ℕ
  pub tls_alloc : ℕ
  pub raw_coherency_mode : ℕ

-- MIDGARD_PROD_ID, PAN_ARCH_MAJOR
abbrev pub midgard_prod_id : ℕ → ℕ
midgard_prod_id id = id / 2 ^ 16 % 2 ^ 16

abbrev pub pan_arch_major : ℕ → ℕ
pan_arch_major id = id / 2 ^ 28 % 16

pub pan_arch : ℕ → ℕ
pan_arch id =
    let p = midgard_prod_id id in
    if (p == 0x600) || (p == 0x620) || (p == 0x720)
    then 4
    else if (p == 0x750) || (p == 0x820) || (p == 0x830) || (p == 0x860) || (p == 0x880)
    then 5
    else pan_arch_major id

-- The parts of a GPU id do not overlap, so `|` is a sum.
unfoldable pub assemble_gpu_id : (product_id major_revision minor_revision version_status : ℕ) → ℕ
assemble_gpu_id p major minor status =
    p * 2 ^ 16 + major % 16 * 2 ^ 12 + minor % 256 * 2 ^ 4 + status % 16

-- the id from the raw register, or else from its parts
unfoldable pub gpu_id_of : (raw product_id major_revision minor_revision version_status : ℕ) → ℕ
gpu_id_of raw p major minor status =
    if raw == 0 then assemble_gpu_id p major minor status else raw / 2 ^ 16 * 2 ^ 16 + raw % 2 ^ 16

-- `num_registers_per_core`, 32 bits, with its fall-back per architecture
pub registers_per_core : (reported gpu_id max_threads : ℕ) → ℕ
registers_per_core reported gpu_id threads =
    if reported == 0
    then (let arch = pan_arch gpu_id in
        if (arch == 4) || (arch == 5)
        then threads * 4 % 2 ^ 32
        else if arch == 6
        then threads * 64 % 2 ^ 32
        else threads * 32 % 2 ^ 32)
    else reported

-- `supported_bo_flags`
abbrev pub supported_bo_flags : BoFlags
supported_bo_flags = record no_bo_flags {
  executable = true;
  alloc_on_fault = true;
  no_mmap = true;
  wb_mmap = true;
  gpu_uncached = true;
  csf_event = true;
}

-- kbase_dev_query_props
unfoldable pub query_props : Keys → (buf : List ℕ) → Props
query_props keys buf =
    let get64 = λ (key : ℕ). or_zero (gpuprop_get buf key 0) in
    let get = λ (key : ℕ). or_zero (gpuprop_get buf key 0) % 2 ^ 32 in
    let gpu_id =
      gpu_id_of (get keys.raw_gpu_id) (get keys.product_id) (get keys.major_revision)
        (get keys.minor_revision) (get keys.version_status) in
    let threads = get keys.raw_thread_max_threads in
    let features = get keys.raw_thread_features in
    let tls = get keys.tls_alloc in
    record {
      gpu_id = gpu_id;
      gpu_variant = get keys.raw_core_features % 256;
      shader_present = get64 keys.raw_shader_present;
      tiler_features = get keys.raw_tiler_features;
      mem_features = get keys.raw_mem_features;
      mmu_features = get keys.raw_mmu_features;
      texture_features_0 = get keys.raw_texture_features_0;
      texture_features_1 = get (keys.raw_texture_features_0 + 1);
      texture_features_2 = get (keys.raw_texture_features_0 + 2);
      texture_features_3 = get keys.raw_texture_features_3;
      afbc_features = 0;
      max_threads_per_core = threads;
      max_threads_per_wg = get keys.raw_thread_max_workgroup_size;
      max_tasks_per_core = max (features / 2 ^ 24) 1;
      num_registers_per_core = registers_per_core (features % 2 ^ 16) gpu_id threads;
      max_tls_instance_per_core = if tls == 0 then threads else tls;
      is_io_coherent = false;
      gpu_can_query_timestamp = not (gpu_id == 0);
      timestamp_device_coherent = not (get keys.raw_coherency_mode == 0);
      timestamp_frequency = 0;
      allow_priority_low = true;
      allow_priority_medium = true;
      pgsize_bitmap = 0x1000;
      supported_bo_flags = supported_bo_flags;
    }
