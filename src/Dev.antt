-- ===== src/Dev.antt =====
-- Opening and closing a device: `kbase_kmod_dev_create` and `kbase_kmod_dev_destroy` of
-- kbase_kmod.c, with pan_kmod_dev_init and pan_kmod_dev_cleanup of pan_kmod_backend.h. Of these two
-- only the file descriptor is modelled: their tables and mutexes are plain memory of the object.
pub mod Held
pub mod Leak
pub mod Tests
use Prim.Native.String.{String}
use text.Mathlib.Text.{◌==◌ as str_eq}
use pan_vk_kbase.Prelude.{
  ℕ, ◌^◌, Bool, true, false, ◌&&◌, ◌||◌, Option, none, some, List, ltb, ◌==◌, if◌then◌else◌,
}
use pan_vk_kbase.Flags.{no_bo_flags}
use pan_vk_kbase.Kernel
use pan_vk_kbase.Kernel.{Call, Reply, ok, fail, M, call, own_call, pure, ◌>>=◌, ◌>>◌}
use pan_vk_kbase.Device.{Device, Props, Csif, Kcpu, Version, page_size, close_opt, munmap_opt}
use pan_vk_kbase.GpuProps.{Keys, get_gpuprops, query_props}
use pan_vk_kbase.Csf.{query_csif_info, address}

-- the environment variables that are read
pub record Env : Type 0 where
  pub user_cache_sync : Option String
  pub dma_heap : Option String
  pub kcpu_sync : Option String

abbrev pub is_set_to : Option String → String → Bool
is_set_to none v = false
is_set_to (some s) v = str_eq s v

-- the path of the heap, with its default for a variable that is missing or empty
pub dma_heap_path : Option String → String
dma_heap_path none = "/dev/dma_heap/system"
dma_heap_path (some s) = if str_eq s "" then "/dev/dma_heap/system" else s

-- The handshake: whether the driver is the CSF flavour, and its version. A JM driver before 11 is
-- turned away.
handshake : M (Option (Bool × Version))
handshake = do
  c ← call Call.version_check_csf
  elim c [
    | ok o ↦ pure (some (true, record { major = o.value; minor = o.second }))
    | fail e ↦ do
      j ← call Call.version_check_jm
      elim j [
        | fail e' ↦ pure none
        | ok o ↦ pure (
            if ltb o.value 11
            then none
            else some (false, record { major = o.value; minor = o.second }))
      ]
  ]

-- zeroed memory
abbrev zero_props : Props
zero_props = record {
  gpu_id = 0;
  gpu_variant = 0;
  shader_present = 0;
  tiler_features = 0;
  mem_features = 0;
  mmu_features = 0;
  texture_features_0 = 0;
  texture_features_1 = 0;
  texture_features_2 = 0;
  texture_features_3 = 0;
  afbc_features = 0;
  max_threads_per_core = 0;
  max_threads_per_wg = 0;
  max_tasks_per_core = 0;
  num_registers_per_core = 0;
  max_tls_instance_per_core = 0;
  is_io_coherent = false;
  gpu_can_query_timestamp = false;
  timestamp_device_coherent = false;
  timestamp_frequency = 0;
  allow_priority_low = false;
  allow_priority_medium = false;
  pgsize_bitmap = 0;
  supported_bo_flags = no_bo_flags;
}

abbrev zero_csif : Csif
zero_csif = record {
  csg_slot_count = 0;
  cs_slot_count = 0;
  cs_reg_count = 0;
  scoreboard_slot_count = 0;
  unpreserved_cs_reg_count = 0;
}

abbrev pub idle_kcpu : Kcpu
idle_kcpu = record {
  id = 0;
  valid = false;
  pending = false;
  addr = 0;
  target_minus_one = 0;
  fence_fd = none;
}

-- the object after pan_kmod_dev_init and the assignments behind it
abbrev pub fresh_device :
    Env
    → (fd : ℕ) → (owns_fd sync_through_kernel is_csf : Bool) → Version
    → (tracking self : ℕ) → Device
fresh_device env fd owns sync is_csf ver tracking self = record {
  self = self;
  fd = fd;
  owns_fd = owns;
  sync_through_kernel = sync || is_set_to env.user_cache_sync "0";
  driver = ver;
  props = zero_props;
  is_csf = is_csf;
  csif_info = zero_csif;
  tracking_page = some tracking;
  user_reg_page = none;
  next_handle = 1;
  dma_heap_fd = none;
  csf_error = false;
  kcpu = idle_kcpu;
}

-- pan_kmod_dev_cleanup
abbrev dev_cleanup : Device → M (Unit {0})
dev_cleanup d = elim d.owns_fd [ true ↦ call (Call.close d.fd) >> pure tt | false ↦ pure tt ]

-- the failures after the object was made, which keep the caller's descriptor
abbrev abandon : Device → M (Option Device)
abandon d = do
  munmap_opt d.tracking_page page_size
  dev_cleanup (record d { owns_fd = false })
  call (Call.free d.self)
  pure none

-- the optional KCPU queue, for a device that is otherwise complete
open_kcpu : (wanted : Bool) → Device → M (Option Device)
open_kcpu false d = pure (some d)
open_kcpu true d = do
  r ← call Call.kcpu_create
  elim r [
    | fail e ↦ pure (some d)
    | ok o ↦ pure (some (record d { kcpu = record idle_kcpu { id = o.value; valid = true } }))
  ]

-- from the properties on
pub dev_finish : Env → Keys → Device → (buf : ℕ) → List ℕ → M (Option Device)
unfolding open_kcpu
dev_finish env keys d buf bytes = do
  call (Call.free buf)
  h ← call (Call.open_dma_heap (dma_heap_path env.dma_heap))
  elim ((query_props keys bytes).gpu_id == 0) [
    | true ↦ do close_opt (address h); abandon d
    | false ↦
        open_kcpu (d.is_csf && is_set_to env.kcpu_sync "1")
          (record d { props = query_props keys bytes; dma_heap_fd = address h })
  ]

-- the CSF interface and the USER register page, on a CSF device
dev_csf : (is_csf : Bool) → Env → Keys → Device → (buf : ℕ) → List ℕ → M (Option Device)
dev_csf false env keys d buf bytes = dev_finish env keys d buf bytes
dev_csf true env keys d buf bytes = do
  c ← query_csif_info
  elim c [
    | none ↦ do call (Call.free buf); abandon d
    | some csif ↦ do
      u ← call (Call.mmap page_size Kernel.rd Kernel.user_reg)
      dev_finish env keys (record d { csif_info = csif; user_reg_page = address u }) buf bytes
  ]

-- once the tracking page is mapped
dev_tracked :
    Env
    → Keys
    → (fd : ℕ) → (owns_fd sync_through_kernel is_csf : Bool) → Version
    → (tracking : ℕ) → M (Option Device)
dev_tracked env keys fd owns sync is_csf ver tracking = do
  p ← get_gpuprops
  elim p [
    | none ↦ do call (Call.munmap tracking page_size); pure none
    | some (buf, bytes) ↦ do
      call (Call.mem_jit_init (2 ^ 25) 255 (2 ^ 25))
      call (Call.mem_exec_init 0x100000)
      a ← call Call.alloc
      elim a [
        | fail e ↦ do call (Call.free buf); call (Call.munmap tracking page_size); pure none
        | ok o ↦
            dev_csf is_csf env keys (fresh_device env fd owns sync is_csf ver tracking o.value) buf
              bytes
      ]
  ]

-- by the reply to the mapping of the tracking page
dev_mapped :
    Reply
    → Env
    → Keys
    → (fd : ℕ) → (owns_fd sync_through_kernel is_csf : Bool) → Version
    → M (Option Device)
dev_mapped (fail e) env keys fd owns sync is_csf ver = pure none
dev_mapped (ok o) env keys fd owns sync is_csf ver =
    dev_tracked env keys fd owns sync is_csf ver o.value

abbrev tracking_call : Call
tracking_call = Call.mmap page_size Kernel.nothing Kernel.tracking

-- once the handshake is over
dev_shaken :
    Option (Bool × Version)
    → Env
    → Keys
    → (fd : ℕ) → (owns_fd sync_through_kernel : Bool) → M (Option Device)
dev_shaken none env keys fd owns sync = pure none
dev_shaken (some (is_csf, ver)) env keys fd owns sync = do
  f ← call (Call.set_flags 0)
  elim f [
    | fail e ↦ pure none
    | ok _ ↦ do m ← call tracking_call; dev_mapped m env keys fd owns sync is_csf ver
  ]

-- kbase_kmod_dev_create
pub dev_create : Env → Keys → (fd : ℕ) → (owns_fd sync_through_kernel : Bool) → M (Option Device)
dev_create env keys fd owns sync = do h ← handshake; dev_shaken h env keys fd owns sync

-- the part of kbase_kmod_dev_destroy that the lock protects
pub kcpu_close : Kcpu → M (Unit {0})
kcpu_close q = do
  own_call Call.lock
  close_opt q.fence_fd
  (elim q.valid [ true ↦ call (Call.kcpu_delete q.id) >> pure tt | false ↦ pure tt ])
  own_call Call.unlock

-- the rest
pub dev_release : Device → M (Unit {0})
dev_release d = do
  munmap_opt d.user_reg_page page_size
  munmap_opt d.tracking_page page_size
  close_opt d.dma_heap_fd
  dev_cleanup d
  call (Call.free d.self)
  pure tt

-- kbase_kmod_dev_destroy
pub dev_destroy : Device → M (Unit {0})
unfolding kcpu_close dev_release
dev_destroy d = kcpu_close d.kcpu >> dev_release d
