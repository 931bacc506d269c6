-- ===== src/Device.antt =====
-- The objects of kbase_kmod.c: struct kbase_kmod_dev with its pan_kmod_dev, struct kbase_kmod_bo
-- with its pan_kmod_bo, and the helpers of pan_kmod.h and pan_kmod_backend.h that set them up.
-- A pointer that may be NULL, and a descriptor that may be -1, is an option.
pub mod Sample
use pan_vk_kbase.Prelude.{
  ℕ, ◌+◌, ◌%◌, ◌^◌, Bool, true, false, ◌||◌, Option, none, some, ltb, leb, if◌then◌else◌,
}
use pan_vk_kbase.Flags.{BoFlags}
use pan_vk_kbase.Kernel.{Call, M, call, pure, ◌>>◌}

-- struct pan_kmod_dev_props, less the fields that this backend leaves zero
pub record Props : Type 0 where
  pub gpu_id : ℕ
  pub gpu_variant : ℕ
  pub shader_present : ℕ
  pub tiler_features : ℕ
  pub mem_features : ℕ
  pub mmu_features : ℕ
  pub texture_features_0 : ℕ
  pub texture_features_1 : ℕ
  pub texture_features_2 : ℕ
  pub texture_features_3 : ℕ
  pub afbc_features : ℕ
  pub max_threads_per_core : ℕ
  pub max_threads_per_wg : ℕ
  pub max_tasks_per_core : ℕ
  pub num_registers_per_core : ℕ
  pub max_tls_instance_per_core : ℕ
  pub is_io_coherent : Bool
  pub gpu_can_query_timestamp : Bool
  pub timestamp_device_coherent : Bool
  pub timestamp_frequency : ℕ
  pub allow_priority_low : Bool
  pub allow_priority_medium : Bool
  pub pgsize_bitmap : ℕ
  pub supported_bo_flags : BoFlags

-- struct drm_panthor_csif_info
pub record Csif : Type 0 where
  pub csg_slot_count : ℕ
  pub cs_slot_count : ℕ
  pub cs_reg_count : ℕ
  pub scoreboard_slot_count : ℕ
  pub unpreserved_cs_reg_count : ℕ

-- the `kcpu` member
pub record Kcpu : Type 0 where
  pub id : ℕ
  pub valid : Bool
  pub pending : Bool
  pub addr : ℕ
  pub target_minus_one : ℕ
  pub fence_fd : Option ℕ

-- struct pan_kmod_driver
pub record Version : Type 0 where
  pub major : ℕ
  pub minor : ℕ

-- `self` is the address of the object itself
pub record Device : Type 0 where
  pub self : ℕ
  pub fd : ℕ
  pub owns_fd : Bool
  pub sync_through_kernel : Bool
  pub driver : Version
  pub props : Props
  pub is_csf : Bool
  pub csif_info : Csif
  pub tracking_page : Option ℕ
  pub user_reg_page : Option ℕ
  pub next_handle : ℕ
  pub dma_heap_fd : Option ℕ
  pub csf_error : Bool
  pub kcpu : Kcpu

pub record Bo : Type 0 where
  pub self : ℕ
  pub exclusive_vm : Option ℕ
  pub size : ℕ
  pub flags : BoFlags
  pub handle : ℕ
  pub refcnt : ℕ
  pub gpu_va : ℕ
  pub cpu_ptr : Option ℕ
  pub gpu_mapping : Option ℕ
  pub dmabuf_fd : Option ℕ
  pub owns_cpu_mapping : Bool
  pub same_va : Bool

abbrev pub page_size : ℕ
page_size = 4096

-- pan_kmod_driver_version_at_least
unfoldable pub version_at_least : Version → ℕ → ℕ → Bool
version_at_least v major minor =
    if ltb v.major major then false else if ltb major v.major then true else leb minor v.minor

-- p_atomic_inc_return of the 32-bit handle counter
unfoldable pub next_handle : Device → ℕ
next_handle d = (d.next_handle + 1) % 2 ^ 32

-- the flags that pan_kmod_bo_init stores
unfoldable pub bo_init_flags : Device → BoFlags → BoFlags
bo_init_flags d f = record f { io_coherent = f.io_coherent || d.props.is_io_coherent }

-- free(), close() and munmap() of what may be missing
abbrev pub free_opt : Option ℕ → M (Unit {0})
free_opt none = pure tt
free_opt (some p) = call (Call.free p) >> pure tt

abbrev pub close_opt : Option ℕ → M (Unit {0})
close_opt none = pure tt
close_opt (some n) = call (Call.close n) >> pure tt

abbrev pub munmap_opt : Option ℕ → ℕ → M (Unit {0})
munmap_opt none len = pure tt
munmap_opt (some p) len = call (Call.munmap p len) >> pure tt

-- kbase_kmod_supports_dmabuf
unfoldable pub supports_dmabuf : Device → Bool
supports_dmabuf d = elim d.dma_heap_fd [ none ↦ false | some _ ↦ true ]

-- kbase_kmod_csf_has_error
unfoldable pub csf_has_error : Device → Bool
csf_has_error d = d.csf_error
