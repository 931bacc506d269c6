-- ===== src/DeviceMemory.antt =====
-- The application's memory: mesa_src/mesa_vulkan/panvk_device_memory.c over the kbase backend of
-- pan_kmod.c, and panvk_as_alloc, panvk_as_alloc_fixed_address, panvk_as_free and
-- panvk_device_adjust_bo_flags of panvk_device.h. The memory objects of the Vulkan runtime come from
-- the memory allocator. Reports to the application and to the command decoder, and log messages, are
-- left out; an assertion is no code.
pub mod Mapping
pub mod Lifetime
pub mod Unmap
pub mod Outcome
pub mod Tests
use pan_vk_kbase.Prelude.{
  ℕ, ◌+◌, ◌-◌, ◌*◌, ◌%◌, ◌^◌, Bool, true, false, not, ◌&&◌, ◌||◌, max, Option, none, some, [], ◌∷◌,
  leb, ◌==◌, if◌then◌else◌,
}
use pan_vk_kbase.Flags.{BoFlags, no_bo_flags}
use pan_vk_kbase.Kernel
use pan_vk_kbase.Kernel.{Call, Reply, ok, fail, M, call, own_call, pure, ◌>>=◌, ◌>>◌}
use pan_vk_kbase.Device.{close_opt}
use pan_vk_kbase.Pan.{PanBo, kbase_bo_get_mmap_offset, bo_put}
use pan_vk_kbase.Pan.Space.{pan_bo_alloc, PanVm, op_map, op_unmap, pan_auto_va, pan_vm_bind}
use pan_vk_kbase.PrivBo.{
  VkResult, vk_success, vk_error_out_of_host_memory, vk_error_out_of_device_memory,
  vk_error_invalid_external_handle, vk_error_memory_map_failed, bo_mmap, first_start,
}

-- struct panvk_device and its physical device, the parts that are read here, with
-- pan_choose_gpu_va_alignment(), which is not in the repository
pub record MemDev : Type 0 where
  pub vm : PanVm
  pub heap : ℕ
  pub fixed_heap : ℕ
  pub arch : ℕ
  pub choose_alignment : (size : ℕ) → ℕ
  pub supports_wb_mmap : Bool
  pub supports_gpu_uncached : Bool
  pub debug_dump : Bool
  pub debug_trace : Bool
  pub debug_no_wb_mmap : Bool

-- struct panvk_device_memory: a host address of 0 is NULL, and `replay` is the allocation flag
-- DEVICE_ADDRESS_CAPTURE_REPLAY.
pub record DeviceMemory : Type 0 where
  pub self : ℕ
  pub bo : PanBo
  pub dev_addr : ℕ
  pub host : ℕ
  pub replay : Bool

-- VkMemoryAllocateInfo with its chain: the handle types of the export as whether there are any and
-- whether there are others than the two known ones; the descriptor of an import with a handle type;
-- and the captured address, with 0 for none.
pub record AllocateInfo : Type 0 where
  pub size : ℕ
  pub host_cached : Bool
  pub exports : Bool
  pub exports_unknown : Bool
  pub import_fd : Option ℕ
  pub replay : Bool
  pub capture_address : ℕ

-- panvk_device_adjust_bo_flags
abbrev pub adjust_bo_flags : MemDev → BoFlags → BoFlags
adjust_bo_flags dev f =
    let allow_wb_mmap = dev.supports_wb_mmap && not dev.debug_dump && not dev.debug_no_wb_mmap in
    record f {
      wb_mmap = f.wb_mmap && allow_wb_mmap;
      no_mmap = f.no_mmap && not (dev.debug_dump || dev.debug_trace);
      gpu_uncached = f.gpu_uncached && dev.supports_gpu_uncached;
    }

abbrev pub address_of : Reply → ℕ
address_of (fail e) = 0
address_of (ok o) = o.value

abbrev pub given : (address : ℕ) → Reply → ℕ
given address (fail e) = 0
given address (ok o) = address

-- panvk_as_alloc
unfoldable pub as_alloc : (heap size alignment : ℕ) → M ℕ
as_alloc heap size alignment = do
  own_call Call.lock
  a ← call (Call.vma_alloc heap size alignment)
  own_call Call.unlock
  pure (address_of a)

-- panvk_as_alloc_fixed_address
unfoldable pub as_alloc_fixed_address : (heap address size : ℕ) → M ℕ
as_alloc_fixed_address heap address size = do
  own_call Call.lock
  a ← call (Call.vma_alloc_at heap address size)
  own_call Call.unlock
  pure (given address a)

-- panvk_as_free
unfoldable pub as_free : (heap address size : ℕ) → M (Unit {0})
as_free heap address size =
    own_call Call.lock >> own_call (Call.vma_free heap address size) >> own_call Call.unlock

-- the alignment for the interleaved images of architecture 10 and later
abbrev pub memory_alignment : MemDev → (size : ℕ) → ℕ
memory_alignment dev size =
    let alignment = dev.choose_alignment size in
    if leb 10 dev.arch && leb (64 * 1024) size then max alignment (64 * 1024) else alignment

-- a start from the heap of fixed addresses or from the other one
unfoldable pub choose_va : (replay no_capture : Bool) → MemDev → (capture size : ℕ) → M ℕ
unfolding as_alloc as_alloc_fixed_address
choose_va false no_capture dev capture size = as_alloc dev.heap size (memory_alignment dev size)
choose_va true true dev capture size = as_alloc dev.fixed_heap size (memory_alignment dev size)
choose_va true false dev capture size = as_alloc_fixed_address dev.fixed_heap capture size

-- the start of the GPU mapping
unfoldable pub memory_va : (auto_va : Bool) → MemDev → AllocateInfo → (size : ℕ) → M ℕ
unfolding choose_va
memory_va true dev i size = pure pan_auto_va
memory_va false dev i size = choose_va i.replay (i.capture_address == 0) dev i.capture_address size

-- the result, the memory, and how much of the heap is used
abbrev pub Allocated : Type 0
Allocated = VkResult × Option DeviceMemory × ℕ

-- err_destroy_mem
abbrev pub destroy_mem : (self : ℕ) → VkResult → (heap_used : ℕ) → M Allocated
destroy_mem self r used = call (Call.free self) >> pure (r, none, used)

-- The mapping, by whether there is no start for it. The binding returns 0 in every case, so that
-- err_return_va is not reached.
unfoldable pub allocate_at :
    (no_va : Bool)
    → MemDev
    → (self : ℕ) → PanBo
    → AllocateInfo
    → (start heap_used : ℕ) → M Allocated
unfolding bo_put pan_vm_bind
allocate_at true dev self b i start used =
    bo_put b >> destroy_mem self vk_error_out_of_device_memory used
allocate_at false dev self b i start used = do
  ops ← pan_vm_bind dev.vm (record { type = op_map; start = start; size = b.size } ∷ [])
  close_opt i.import_fd
  pure (
    vk_success,
    some (record { self = self; bo = b; dev_addr = first_start ops; host = 0; replay = i.replay }),
    (used + b.size) % 2 ^ 64,
  )

-- by the object, with the result where there is none
unfoldable pub allocate_from :
    MemDev → (self : ℕ) → VkResult → Option PanBo → AllocateInfo → (heap_used : ℕ) → M Allocated
unfolding memory_va allocate_at
allocate_from dev self r none i used = destroy_mem self r used
allocate_from dev self r (some b) i used = do
  start ← memory_va dev.vm.auto_va dev i b.size
  allocate_at (not dev.vm.auto_va && (start == 0)) dev self b i start used

-- pan_kmod_bo_import, a stub
abbrev pub pan_bo_import : (fd : ℕ) → M (Option PanBo)
pan_bo_import fd = pure none

-- An object that is exported is not cached, and in no address space of its own.
abbrev pub memory_flags : MemDev → AllocateInfo → BoFlags
memory_flags dev i =
    adjust_bo_flags dev (record no_bo_flags { wb_mmap = not i.exports && i.host_cached })

-- the object: imported, or allocated
unfoldable pub allocate_object :
    Option ℕ → MemDev → (self : ℕ) → AllocateInfo → (heap_used : ℕ) → M Allocated
unfolding allocate_from pan_bo_alloc
allocate_object (some fd) dev self i used = do
  b ← pan_bo_import fd
  allocate_from dev self vk_error_invalid_external_handle b i used
allocate_object none dev self i used = do
  b ← pan_bo_alloc i.size (memory_flags dev i)
  allocate_from dev self vk_error_out_of_device_memory b i used

-- by the reply of the memory allocator
unfoldable pub allocate_object_if : Reply → MemDev → AllocateInfo → (heap_used : ℕ) → M Allocated
unfolding allocate_object
allocate_object_if (fail e) dev i used = pure (vk_error_out_of_host_memory, none, used)
allocate_object_if (ok o) dev i used = allocate_object i.import_fd dev o.value i used

-- by whether the memory is to be exported as something else than the two known types
unfoldable pub allocate_unless :
    (unknown : Bool) → MemDev → AllocateInfo → (heap_used : ℕ) → M Allocated
unfolding allocate_object_if
allocate_unless true dev i used = pure (vk_error_invalid_external_handle, none, used)
allocate_unless false dev i used = do a ← call Call.alloc; allocate_object_if a dev i used

-- panvk_AllocateMemory, less the memory of Android
unfoldable pub allocate_memory : MemDev → AllocateInfo → (heap_used : ℕ) → M Allocated
unfolding allocate_unless
allocate_memory dev i used = allocate_unless i.exports_unknown dev i used

-- os_munmap of what is mapped
unfoldable pub munmap_unless : (is_null : Bool) → (host size : ℕ) → M (Unit {0})
munmap_unless true host size = pure tt
munmap_unless false host size = own_call (Call.munmap host size)

unfoldable pub free_va : (auto_va : Bool) → MemDev → DeviceMemory → M (Unit {0})
unfolding as_free
free_va true dev m = pure tt
free_va false dev m = as_free (if m.replay then dev.fixed_heap else dev.heap) m.dev_addr m.bo.size

-- panvk_FreeMemory of a memory, with how much of the heap is used afterwards
unfoldable pub free_memory : MemDev → DeviceMemory → (heap_used : ℕ) → M ℕ
unfolding munmap_unless pan_vm_bind free_va bo_put
free_memory dev m used = do
  munmap_unless (m.host == 0) m.host m.bo.size
  pan_vm_bind dev.vm (record { type = op_unmap; start = m.dev_addr; size = m.bo.size } ∷ [])
  free_va dev.vm.auto_va dev m
  bo_put m.bo
  own_call (Call.free m.self)
  pure ((used + 2 ^ 64 - m.bo.size % 2 ^ 64) % 2 ^ 64)

-- the result, the address in the mapping, and the memory
abbrev pub Mapped : Type 0
Mapped = VkResult × ℕ × DeviceMemory

abbrev pub mapped : Option ℕ → (offset : ℕ) → DeviceMemory → Mapped
mapped none offset m = (vk_error_memory_map_failed, 0, m)
mapped (some addr) offset m = (vk_success, addr + offset, record m { host = addr })

-- pan_kmod_bo_mmap with MAP_FIXED
unfoldable pub bo_mmap_placed : (addr : ℕ) → PanBo → M (Option ℕ)
unfolding kbase_bo_get_mmap_offset
bo_mmap_placed addr b = elim b.flags.no_mmap [
  | true ↦ pure none
  | false ↦ elim (leb (2 ^ 63) (kbase_bo_get_mmap_offset b)) [
    | true ↦ pure none
    | false ↦ do
      m ← call (Call.mmap_placed addr b.size Kernel.rd_wr (Kernel.at (kbase_bo_get_mmap_offset b)))
      elim m [ fail e ↦ pure none | ok p ↦ pure (some p.value) ]
  ]
]

-- by the address of VK_MEMORY_MAP_PLACED_BIT_EXT, if it is set
unfoldable pub mmap_for : (placed : Option ℕ) → PanBo → M (Option ℕ)
unfolding bo_mmap bo_mmap_placed
mmap_for none b = bo_mmap b
mmap_for (some addr) b = bo_mmap_placed addr b

-- by whether there is no mapping yet
unfoldable pub map_if :
    (is_null : Bool) → (placed : Option ℕ) → (offset : ℕ) → DeviceMemory → M Mapped
unfolding mmap_for
map_if false placed offset m = pure (vk_success, m.host + offset, m)
map_if true placed offset m = do a ← mmap_for placed m.bo; pure (mapped a offset m)

-- panvk_MapMemory2KHR of a memory
unfoldable pub map_memory : (placed : Option ℕ) → (offset : ℕ) → DeviceMemory → M Mapped
unfolding map_if
map_memory placed offset m = map_if (m.host == 0) placed offset m

abbrev pub reserved : Reply → DeviceMemory → VkResult × DeviceMemory
reserved (fail e) m = (vk_error_memory_map_failed, m)
reserved (ok o) m = (vk_success, record m { host = 0 })

-- panvk_UnmapMemory2KHR, by whether the addresses are to stay reserved
unfoldable pub unmap_memory : (reserve : Bool) → DeviceMemory → M (VkResult × DeviceMemory)
unmap_memory true m = do a ← call (Call.mmap_reserve m.host m.bo.size); pure (reserved a m)
unmap_memory false m = do
  own_call (Call.munmap m.host m.bo.size)
  pure (vk_success, record m { host = 0 })
