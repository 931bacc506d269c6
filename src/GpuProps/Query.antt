-- ===== src/GpuProps/Query.antt =====
-- What `kbase_dev_query_props` guarantees of the properties, whatever the blob says, and the
-- memory that the fetch of the blob holds.
use pan_vk_kbase.Prelude.{
  ℕ, ◌+◌, ◌/◌, ◌%◌, ◌^◌, ◌<◌, ◌≡◌, ◌≢◌, true, false, not, ◌⊎◌, ◌≤◌, none, some, List, ◌++◌, arith,
  ◌==◌, if◌then◌else◌, refl,
}
use pan_vk_kbase.Kernel.{Kernel, Log}
use pan_vk_kbase.Kernel.Ledger.{Kind, held, one, memory}
use pan_vk_kbase.Device.{Props}
use pan_vk_kbase.GpuProps.{
  Keys, gpu_id_of, assemble_gpu_id, registers_per_core, query_props, get_gpuprops, gpuprop_get,
  or_zero,
}
use pan_vk_kbase.GpuProps.Encode.{Entry, AllEntries, encode}
use pan_vk_kbase.GpuProps.Lookup.{IsCutOff, find, gpuprop_get-encode}

-- A GPU id put together from its parts gives each part back, in the bits that the register has.
assemble_gpu_id_fields :
    (p major minor status : ℕ)
    → let id = assemble_gpu_id p major minor status in
      (id / 2 ^ 16 ≡ p)
      × (id / 2 ^ 12 % 16 ≡ major % 16)
      × (id / 2 ^ 4 % 256 ≡ minor % 256)
      × (id % 16 ≡ status % 16)
unfolding assemble_gpu_id
assemble_gpu_id_fields p major minor status = omega arith

-- The raw register, where the kernel reports one, is the id.
gpu_id_of-raw : (raw p major minor status : ℕ) → raw ≢ 0 → gpu_id_of raw p major minor status ≡ raw
unfolding gpu_id_of
gpu_id_of-raw raw p major minor status h = ground arith

registers_per_core-pos :
    (reported id threads : ℕ)
    → (threads ≡ 0) ⊎ ((2 ^ 26 ≤ threads) ⊎ (0 < registers_per_core reported id threads))
unfolding registers_per_core
registers_per_core-pos reported id threads = ground arith

tls_or_threads : (tls threads : ℕ) → ((if tls == 0 then threads else tls) ≢ 0) ⊎ (threads ≡ 0)
tls_or_threads tls threads = ground arith

not_is_zero : (n : ℕ) → (not (n == 0) ≡ true) ⊎ (n ≡ 0)
not_is_zero n = ground arith

pub record IsUsable (p : Props) : Type 0 where
  pub tasks : 0 < p.max_tasks_per_core
  pub registers :
      (p.max_threads_per_core ≡ 0)
      ⊎ ((2 ^ 26 ≤ p.max_threads_per_core) ⊎ (0 < p.num_registers_per_core))
  pub tls : (p.max_tls_instance_per_core ≢ 0) ⊎ (p.max_threads_per_core ≡ 0)
  pub timestamp : (p.gpu_can_query_timestamp ≡ true) ⊎ (p.gpu_id ≡ 0)
  pub variant : p.gpu_variant < 256
  pub incoherent : p.is_io_coherent ≡ false

-- Whatever the blob holds, the properties can be used: at least one task to a core, registers and
-- local storage wherever there are threads (fewer than 2 ^ 26 for the registers), timestamps for
-- every known GPU, a variant of one byte, no claim of coherence.
query_props-IsUsable : (keys : Keys) (buf : List ℕ) → IsUsable (query_props keys buf)
unfolding query_props
query_props-IsUsable keys buf = record {
  tasks = omega arith;
  registers =
      registers_per_core-pos _ _ (or_zero (gpuprop_get buf keys.raw_thread_max_threads 0) % 2 ^ 32);
  tls = tls_or_threads (or_zero (gpuprop_get buf keys.tls_alloc 0) % 2 ^ 32) _;
  timestamp = not_is_zero _;
  variant = omega arith;
  incoherent = refl;
}

-- The GPU id of a printed blob of well-formed entries, with any bytes behind it that hold no whole
-- entry, is what the blob says of the raw register in 32 bits, if that is not zero.
query_props-encode :
    (keys : Keys) (es : List Entry) (tail : List ℕ)
    → AllEntries es
    → IsCutOff tail
    → find es keys.raw_gpu_id 0 % 2 ^ 32 ≢ 0
    → (query_props keys (encode es ++ tail)).gpu_id ≡ find es keys.raw_gpu_id 0 % 2 ^ 32
unfolding query_props
query_props-encode keys es tail v c h =
    rw (gpuprop_get-encode es tail keys.raw_gpu_id 0 v c) (gpu_id_of-raw _ _ _ _ _ h)

-- Fetching the blob holds its buffer on success, and nothing more on failure.
pub held-get_gpuprops :
    (k : Kernel) (l : Log) (κ : Kind) (x : ℕ)
    → held (get_gpuprops k l).1 κ x
      ≡ held l κ x + (elim (get_gpuprops k l).0 [ none ↦ 0 | some (p, bs) ↦ one memory p κ x ])
unfolding get_gpuprops
held-get_gpuprops k l κ x = ground arith
