-- ===== src/Buffer.antt =====
-- Buffers of the application: mesa_src/mesa_vulkan/panvk_buffer.c over the kbase backend of
-- pan_kmod.c, with panvk_buffer_gpu_ptr of panvk_buffer.h and panvk_get_max_buffer_size of
-- panvk_physical_device.c. The buffer objects of the Vulkan runtime come from the memory allocator.
-- A range without memory is bound by Pan/Sparse. Reports to the application are left out; an
-- assertion is no code.
pub mod Lifetime
pub mod Limits
pub mod Copy
pub mod Tests
use pan_vk_kbase.Prelude.{
  ℕ, ◌+◌, ◌-◌, ◌%◌, ◌^◌, Bool, true, false, ◌||◌, Option, none, some, [], ◌∷◌, ltb, ◌==◌,
  if◌then◌else◌,
}
use pan_vk_kbase.Kernel.{Call, Reply, ok, fail, M, call, own_call, pure, ◌>>=◌, ◌>>◌}
use pan_vk_kbase.Pan.Space.{op_unmap, pan_vm_bind}
use pan_vk_kbase.Pan.Sparse.{bind_sparse}
use pan_vk_kbase.PrivBo.{
  VkResult, vk_success, vk_error_out_of_host_memory, vk_error_out_of_device_memory,
}
use pan_vk_kbase.Pool.{align_pot, low_bit}
use pan_vk_kbase.DeviceMemory.{MemDev, DeviceMemory, as_alloc, as_free}

-- the device with what is read of its physical device besides
pub record BufferDev : Type 0 where
  pub mem : MemDev
  pub max_supported_va : ℕ
  pub type_count : ℕ
  pub force_blackhole : Bool

-- VkBufferCreateInfo
pub record BufferInfo : Type 0 where
  pub size : ℕ
  pub sparse_binding : Bool
  pub sparse_residency : Bool

-- struct panvk_buffer
pub record Buffer : Type 0 where
  pub self : ℕ
  pub info : BufferInfo
  pub device_address : ℕ
  pub host_ptr : ℕ

-- panvk_get_gpu_page_size
abbrev pub page_size : BufferDev → ℕ
page_size dev = low_bit 64 dev.mem.vm.pgsize_bitmap

-- panvk_buffer_get_sparse_size
abbrev pub sparse_size : BufferDev → (size : ℕ) → ℕ
sparse_size dev size = align_pot 64 size (page_size dev)

-- panvk_get_max_buffer_size, whose limit of the descriptors is a variable of 32 bits
unfoldable pub max_buffer_size : BufferDev → ℕ
max_buffer_size dev =
    let max_desc_size = (if ltb dev.mem.arch 11 then 2 ^ 32 - 1 else 2 ^ 48 - 1) % 2 ^ 32 in
    if ltb max_desc_size dev.max_supported_va then max_desc_size else dev.max_supported_va

-- VkMemoryRequirements: the size, the alignment and the mask of memory types
pub record Requirements : Type 0 where
  pub size : ℕ
  pub alignment : ℕ
  pub memory_type_bits : ℕ

-- panvk_GetDeviceBufferMemoryRequirements
unfoldable pub memory_requirements : BufferDev → BufferInfo → Requirements
memory_requirements dev i =
    let align = if i.sparse_binding then page_size dev else 64 in
    record {
      size = align_pot 64 i.size align;
      alignment = align;
      memory_type_bits = (2 ^ dev.type_count - 1) % 2 ^ 32;
    }

-- one round of panvk_BindBufferMemory2
unfoldable pub bind_buffer_memory : DeviceMemory → (offset : ℕ) → Buffer → Buffer
bind_buffer_memory m offset b = record b {
  device_address = (m.dev_addr + offset) % 2 ^ 64;
  host_ptr = (m.host + offset) % 2 ^ 64;
}

-- panvk_buffer_gpu_ptr
abbrev pub buffer_gpu_ptr : Buffer → (offset : ℕ) → ℕ
buffer_gpu_ptr b offset = if b.device_address == 0 then 0 else (b.device_address + offset) % 2 ^ 64

-- the result, the buffer and the device, whose dummy object may be new
abbrev pub Created : Type 0
Created = VkResult × Option Buffer × BufferDev

-- err_destroy_buffer
abbrev pub destroy_failed : BufferDev → (self : ℕ) → VkResult → M Created
destroy_failed dev self r = call (Call.free self) >> pure (r, none, dev)

abbrev pub created : BufferDev → (self : ℕ) → BufferInfo → (address : ℕ) → Created
created dev self i address = (
  vk_success,
  some (record { self = self; info = i; device_address = address; host_ptr = 0 }),
  dev,
)

-- The mapping of a range without memory, if there is to be one: whether it went well, and the
-- device.
unfoldable pub map_sparse :
    (residency : Bool) → BufferDev → (address size : ℕ) → M (Bool × BufferDev)
unfolding bind_sparse
map_sparse false dev address size = pure (true, dev)
map_sparse true dev address size = do
  r ← bind_sparse dev.mem.vm address size
  pure (r.0, record dev { mem = record dev.mem { vm = r.1 } })

-- by whether the mapping went well, with err_free_va
unfoldable pub create_if_bound :
    (is_bound : Bool) → BufferDev → (self : ℕ) → BufferInfo → (address : ℕ) → M Created
unfolding as_free
create_if_bound true dev self i address = pure (created dev self i address)
create_if_bound false dev self i address =
    as_free dev.mem.heap address (sparse_size dev i.size)
    >> destroy_failed dev self vk_error_out_of_device_memory

-- by whether there is no address
unfoldable pub create_sparse_at :
    (no_va : Bool) → BufferDev → (self : ℕ) → BufferInfo → (address : ℕ) → M Created
unfolding map_sparse create_if_bound
create_sparse_at true dev self i address = destroy_failed dev self vk_error_out_of_device_memory
create_sparse_at false dev self i address = do
  r ← map_sparse (i.sparse_residency || dev.force_blackhole) dev address (sparse_size dev i.size)
  create_if_bound r.0 r.1 self i address

-- by whether the buffer is a sparse one
unfoldable pub create_bound : (sparse : Bool) → BufferDev → (self : ℕ) → BufferInfo → M Created
unfolding as_alloc create_sparse_at
create_bound false dev self i = pure (created dev self i 0)
create_bound true dev self i = do
  let size = sparse_size dev i.size
  a ← as_alloc dev.mem.heap size (dev.mem.choose_alignment size)
  create_sparse_at (a == 0) dev self i a

-- by whether the buffer is too large
unfoldable pub create_sized : (too_large : Bool) → BufferDev → (self : ℕ) → BufferInfo → M Created
unfolding create_bound
create_sized true dev self i = destroy_failed dev self vk_error_out_of_device_memory
create_sized false dev self i = create_bound i.sparse_binding dev self i

-- by the reply of the memory allocator
unfoldable pub create_object : Reply → BufferDev → BufferInfo → M Created
unfolding create_sized max_buffer_size
create_object (fail e) dev i = pure (vk_error_out_of_host_memory, none, dev)
create_object (ok o) dev i = create_sized (ltb (max_buffer_size dev) i.size) dev o.value i

-- panvk_CreateBuffer
unfoldable pub create_buffer : BufferDev → BufferInfo → M Created
unfolding create_object
create_buffer dev i = do a ← call Call.alloc; create_object a dev i

unfoldable pub unbind_sparse : (sparse : Bool) → BufferDev → Buffer → M (Unit {0})
unfolding pan_vm_bind as_free
unbind_sparse false dev b = pure tt
unbind_sparse true dev b = do
  let size = sparse_size dev b.info.size
  pan_vm_bind dev.mem.vm (record { type = op_unmap; start = b.device_address; size = size } ∷ [])
  as_free dev.mem.heap b.device_address size

-- panvk_DestroyBuffer of a buffer
unfoldable pub destroy_buffer : BufferDev → Buffer → M (Unit {0})
unfolding unbind_sparse
destroy_buffer dev b = unbind_sparse b.info.sparse_binding dev b >> own_call (Call.free b.self)
