-- ===== src/DescriptorWrite/Update.antt =====
-- The writes of the application by the type of the descriptor, and the flush, in the same file.
use pan_vk_kbase.Prelude.{ℕ, ◌+◌, ◌-◌, ◌%◌, ◌^◌, Bool, true, false, Option, none, some, leb}
use pan_vk_kbase.DescriptorLayout.{DescriptorType, Subdesc}
use pan_vk_kbase.DescriptorWrite.{
  Bytes, Packing, WrittenSet, write_desc, write_desc_data, repeat, ImageInfo, BufferInfo,
  write_sampler_desc, write_image_view_desc, buffer_desc, write_dynamic_buffer_desc, view_desc,
}

-- VkWriteDescriptorSet, with its arrays by the index
pub record Write : Type 0 where
  pub type : DescriptorType
  pub binding : ℕ
  pub elem : ℕ
  pub count : ℕ
  pub image_info : ℕ → Option ImageInfo
  pub buffer_info : ℕ → BufferInfo
  pub buffer_view : ℕ → Option Bytes
  pub inline_block : Bytes

module _ (k : Packing) where
  -- element `j` of a write that has elements
  unfoldable pub write_elem :
      DescriptorType → Write → (write_immutable : Bool) → (j : ℕ) → WrittenSet → WrittenSet
  unfolding write_sampler_desc write_image_view_desc write_desc write_dynamic_buffer_desc
  write_elem DescriptorType.sampler w m j s =
      write_sampler_desc k (w.image_info j) w.binding ((w.elem + j) % 2 ^ 32) m s
  write_elem DescriptorType.combined_image_sampler w m j s =
      write_sampler_desc k (w.image_info j) w.binding ((w.elem + j) % 2 ^ 32) m
        (write_image_view_desc k (w.image_info j) w.binding ((w.elem + j) % 2 ^ 32) w.type s)
  write_elem DescriptorType.sampled_image w m j s =
      write_image_view_desc k (w.image_info j) w.binding ((w.elem + j) % 2 ^ 32) w.type s
  write_elem DescriptorType.storage_image w m j s =
      write_image_view_desc k (w.image_info j) w.binding ((w.elem + j) % 2 ^ 32) w.type s
  write_elem DescriptorType.input_attachment w m j s =
      write_image_view_desc k (w.image_info j) w.binding ((w.elem + j) % 2 ^ 32) w.type s
  write_elem DescriptorType.uniform_texel_buffer w m j s =
      write_desc w.binding ((w.elem + j) % 2 ^ 32) Subdesc.no_subdesc
        (view_desc k (w.buffer_view j)) s
  write_elem DescriptorType.storage_texel_buffer w m j s =
      write_desc w.binding ((w.elem + j) % 2 ^ 32) Subdesc.no_subdesc
        (view_desc k (w.buffer_view j)) s
  write_elem DescriptorType.uniform_buffer w m j s =
      write_desc w.binding ((w.elem + j) % 2 ^ 32) Subdesc.no_subdesc
        (buffer_desc k (w.buffer_info j) w.type) s
  write_elem DescriptorType.storage_buffer w m j s =
      write_desc w.binding ((w.elem + j) % 2 ^ 32) Subdesc.no_subdesc
        (buffer_desc k (w.buffer_info j) w.type) s
  write_elem DescriptorType.uniform_buffer_dynamic w m j s =
      write_dynamic_buffer_desc k (w.buffer_info j) w.binding ((w.elem + j) % 2 ^ 32) s
  write_elem DescriptorType.storage_buffer_dynamic w m j s =
      write_dynamic_buffer_desc k (w.buffer_info j) w.binding ((w.elem + j) % 2 ^ 32) s
  write_elem DescriptorType.inline_uniform_block w m j s = s
  write_elem DescriptorType.mutable w m j s = s

  -- by the type: an inline block is written as a whole, at slot 1 and an offset of bytes (write_iub),
  -- and a mutable type is not reached
  unfoldable pub write_typed :
      DescriptorType → Write → (write_immutable : Bool) → WrittenSet → WrittenSet
  unfolding write_desc_data repeat write_elem
  write_typed DescriptorType.inline_uniform_block w m s =
      write_desc_data w.binding 1 Subdesc.no_subdesc w.elem w.inline_block w.count s
  write_typed t w m s = repeat w.count 0 (write_elem t w m) s

  -- panvk_per_arch(descriptor_set_write)
  unfoldable pub descriptor_set_write : Write → (write_immutable : Bool) → WrittenSet → WrittenSet
  unfolding write_typed
  descriptor_set_write w m s = write_typed w.type w m s

-- a range that is flushed: its start in the set, and its size
pub record Flushed : Type 0 where
  pub range : Option (ℕ × ℕ)
  pub set : WrittenSet

-- SIZE_MAX
abbrev pub size_max : ℕ
size_max = 2 ^ 64 - 1

abbrev pub clean : WrittenSet → WrittenSet
clean s = record s { dirty_min = size_max; dirty_max = 0 }

-- by whether the range is empty, and whether the pool has a buffer
unfoldable pub flush_if : (is_clean has_bo : Bool) → WrittenSet → Flushed
flush_if true has_bo s = record { range = none; set = s }
flush_if false true s = record {
  range = some (s.dirty_min, s.dirty_max - s.dirty_min);
  set = clean s;
}
flush_if false false s = record { range = none; set = clean s }

-- panvk_per_arch(descriptor_set_flush). The range starts where the set lies in the buffer.
unfoldable pub descriptor_set_flush : (has_bo : Bool) → WrittenSet → Flushed
unfolding flush_if
descriptor_set_flush has_bo s = flush_if (leb s.dirty_max s.dirty_min) has_bo s
