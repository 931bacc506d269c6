-- ===== src/GpuProps/Tests.antt =====
-- Runs of the definitions of GpuProps, and its theorems at concrete inputs.
use pan_vk_kbase.Prelude.{ℕ, ◌≡◌, refl, List, [], ◌∷◌, ◌++◌, inl, some, arith}
use pan_vk_kbase.Kernel.Sample.{blob}
use pan_vk_kbase.GpuProps.{Keys, gpuprop_loop, gpuprop_get, pan_arch}
use pan_vk_kbase.GpuProps.Encode.{Entry, AllEntries, encode}
use pan_vk_kbase.GpuProps.Lookup.{gpuprop_get-encode}

abbrev pub sample_keys : Keys
sample_keys = record {
  raw_gpu_id = 1;
  product_id = 2;
  major_revision = 3;
  minor_revision = 4;
  version_status = 5;
  raw_core_features = 6;
  raw_shader_present = 7;
  raw_tiler_features = 8;
  raw_mem_features = 9;
  raw_mmu_features = 10;
  raw_texture_features_0 = 11;
  raw_texture_features_3 = 14;
  raw_thread_max_threads = 15;
  raw_thread_max_workgroup_size = 16;
  raw_thread_features = 17;
  tls_alloc = 18;
  raw_coherency_mode = 19;
}

-- a GPU id of four bytes, and a thread count of two
abbrev entries : List Entry
entries =
    record { key = 1; size_code = 2; value = 0xa8670000 }
    ∷ record { key = 15; size_code = 1; value = 2048 }
    ∷ []

abbrev cut_off : List ℕ
cut_off = 9 ∷ 9 ∷ 9 ∷ []

entries-AllEntries : AllEntries entries
entries-AllEntries = (
  record { key_fits = omega arith; code_fits = omega arith; value_fits = omega arith },
  (record { key_fits = omega arith; code_fits = omega arith; value_fits = omega arith }, tt),
)

gpuprop_get-blob : gpuprop_get blob 1 0 ≡ some 0xa8670000
unfolding gpuprop_get gpuprop_loop
gpuprop_get-blob = refl

gpuprop_get_missing : gpuprop_get blob 2 77 ≡ some 77
unfolding gpuprop_get gpuprop_loop
gpuprop_get_missing = refl

pan_arch_g610 : pan_arch 0xa8670000 ≡ 10
unfolding pan_arch
pan_arch_g610 = refl

gpuprop_get-encode_example : gpuprop_get (encode entries ++ cut_off) 15 0 ≡ some 2048
gpuprop_get-encode_example =
    gpuprop_get-encode entries cut_off 15 0 entries-AllEntries (inl (omega arith))
