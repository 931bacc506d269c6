-- ===== src/Buffer/Limits.antt =====
-- The sizes that buffers may have, what memory they ask for, and the addresses that they get.
use pan_vk_kbase.Prelude.{ℕ, ◌+◌, ◌%◌, ◌^◌, ◌<◌, ◌≤◌, ◌≡◌, true, false, arith, if◌then◌else◌}
use pan_vk_kbase.Pool.{align_pot}
use pan_vk_kbase.Pool.Align.{align_pot-bounds}
use pan_vk_kbase.DeviceMemory.{DeviceMemory}
use pan_vk_kbase.Buffer.{
  BufferDev, BufferInfo, Buffer, max_buffer_size, memory_requirements, bind_buffer_memory,
  page_size,
}

-- No buffer of 4 GiB or more is created, whatever the architecture.
max_buffer_size-below_4g : (dev : BufferDev) → max_buffer_size dev < 2 ^ 32
unfolding max_buffer_size
max_buffer_size-below_4g dev = ground arith

-- The binding of a memory that is not mapped makes the bare offset the host pointer.
bind_buffer_memory-unmapped :
    (m : DeviceMemory) (offset : ℕ) (b : Buffer)
    → m.host ≡ 0
    → offset < 2 ^ 64
    → (bind_buffer_memory m offset b).host_ptr ≡ offset
unfolding bind_buffer_memory
bind_buffer_memory-unmapped m offset b h s = ground (arith, h)

-- Where the page size is not 0 and nothing runs over 64 bits, the requirements cover the buffer by
-- less than an alignment too much, in whole alignments.
memory_requirements-covers :
    (dev : BufferDev) (i : BufferInfo)
    → 0 < page_size dev
    → i.size + page_size dev + 64 < 2 ^ 64
    → let r = memory_requirements dev i in
      (i.size ≤ r.size) × (r.size < i.size + r.alignment) × (r.size % r.alignment ≡ 0)
unfolding memory_requirements
memory_requirements-covers dev i h s =
    elim i.sparse_binding
      as (λ b.
        let a = if b then page_size dev else 64 in
        (i.size ≤ align_pot 64 i.size a)
        × (align_pot 64 i.size a < i.size + a)
        × (align_pot 64 i.size a % a ≡ 0)) [
          | true ↦ align_pot-bounds 64 i.size (page_size dev) h (omega arith)
          | false ↦ align_pot-bounds 64 i.size 64 (omega arith) (omega arith)
        ]
