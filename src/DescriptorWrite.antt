-- ===== src/DescriptorWrite.antt =====
-- What is written to the descriptors of a set: the other part of
-- mesa_src/mesa_vulkan/panvk_vX_descriptor_set.c, for GPUs of architecture 9 and later. The packing
-- of descriptors is generated code, and align() and vk_buffer_range() are another library's: they
-- are parameters. The planes of a descriptor are fewer than 256.
pub mod Update
pub mod Copy
pub mod Cover
pub mod Slot
pub mod Flush
pub mod Tests
use pan_vk_kbase.Prelude.{
  ℕ, zero, suc, ◌+◌, ◌-◌, ◌*◌, ◌%◌, ◌^◌, Bool, true, false, not, ◌&&◌, min, max, Option, none, some,
  List, [], ◌∷◌, leb, ltb, ◌==◌, if◌then◌else◌,
}
use pan_vk_kbase.Buffer.{Buffer, buffer_gpu_ptr}
use pan_vk_kbase.DescriptorLayout.{
  DescriptorType, is_combined, Sampler, Layout, Subdesc, desc_index, descriptor_size,
}

-- bytes by their offset
abbrev pub Bytes : Type 0
Bytes = ℕ → ℕ

-- what the code calls: the packed descriptors, and two functions of libraries
pub record Packing : Type 0 where
  pub null_descriptor : Bytes
  pub buffer : (address size : ℕ) → Bytes
  pub sampler : (self plane : ℕ) → Bytes
  pub align : (value alignment : ℕ) → ℕ
  pub vk_buffer_range : Buffer → (offset range : ℕ) → ℕ

-- an entry of `dyn_bufs`
pub record DynBuf : Type 0 where
  pub dev_addr : ℕ
  pub size : ℕ

-- struct panvk_descriptor_set, the parts that are written, with its memory from its start on
pub record WrittenSet : Type 0 where
  pub layout : Layout
  pub bytes : Bytes
  pub dirty_min : ℕ
  pub dirty_max : ℕ
  pub dyn_bufs : ℕ → DynBuf

-- the place of a descriptor's part, in bytes
abbrev pub offset_b : WrittenSet → (binding elem : ℕ) → Subdesc → (desc_offset : ℕ) → ℕ
unfolding desc_index
offset_b s b e sub o = (o + desc_index (s.layout.bindings b) e sub * descriptor_size) % 2 ^ 32

-- memcpy
abbrev pub put_bytes : (offset size : ℕ) → (src : Bytes) → Bytes → Bytes
put_bytes off n src bytes o = if leb off o && ltb o (off + n) then src (o - off) else bytes o

abbrev pub write_at : (offset size : ℕ) → (src : Bytes) → WrittenSet → WrittenSet
write_at off n src s = record s {
  bytes = put_bytes off n src s.bytes;
  dirty_min = min s.dirty_min off;
  dirty_max = max s.dirty_max (off + n);
}

-- write_desc_data
unfoldable pub write_desc_data :
    (binding elem : ℕ)
    → Subdesc
    → (desc_offset : ℕ) → Bytes
    → (desc_size : ℕ) → WrittenSet
    → WrittenSet
unfolding offset_b
write_desc_data b e sub o src n s = write_at (offset_b s b e sub o) n src s

-- write_desc
abbrev pub write_desc : (binding elem : ℕ) → Subdesc → Bytes → WrittenSet → WrittenSet
unfolding write_desc_data
write_desc b e sub src s = write_desc_data b e sub 0 src descriptor_size s

-- get_tex_subdesc_info and get_sampler_subdesc_info
abbrev pub get_tex_subdesc_info : DescriptorType → (plane : ℕ) → Subdesc
get_tex_subdesc_info t plane =
    if is_combined t then Subdesc.tex_subdesc plane else Subdesc.no_subdesc

abbrev pub get_sampler_subdesc_info : DescriptorType → (plane : ℕ) → Subdesc
get_sampler_subdesc_info t plane =
    if is_combined t then Subdesc.sampler_subdesc plane else Subdesc.no_subdesc

-- a loop from a number on
unfoldable pub repeat : (n i : ℕ) → ((i : ℕ) → WrittenSet → WrittenSet) → WrittenSet → WrittenSet
repeat zero i f s = s
repeat (suc n) i f s = repeat n (suc i) f (f i s)

-- VkDescriptorImageInfo; a view has descriptors of its planes
pub record ImageView : Type 0 where
  pub tex : (plane : ℕ) → Bytes
  pub storage_tex : (plane : ℕ) → Bytes

pub record ImageInfo : Type 0 where
  pub sampler : Option Sampler
  pub image_view : Option ImageView

pub record BufferInfo : Type 0 where
  pub buffer : Option Buffer
  pub offset : ℕ
  pub range : ℕ

-- the element of an array of samplers
abbrev pub nth : List Sampler → ℕ → Option Sampler
nth [] n = none
nth (x ∷ xs) zero = some x
nth (x ∷ xs) (suc n) = nth xs n

abbrev pub is_storage_image : DescriptorType → Bool
is_storage_image DescriptorType.storage_image = true
is_storage_image _ = false

abbrev pub is_storage_buffer : DescriptorType → Bool
is_storage_buffer DescriptorType.storage_buffer = true
is_storage_buffer _ = false

module _ (k : Packing) where
  -- by the sampler, if there is one
  unfoldable pub write_sampler : Option Sampler → (binding elem : ℕ) → WrittenSet → WrittenSet
  unfolding write_desc repeat
  write_sampler none b e s =
      let l = s.layout.bindings b in
      repeat l.samplers_per_desc 0
        (λ plane. write_desc b e (get_sampler_subdesc_info l.type plane) k.null_descriptor) s
  write_sampler (some x) b e s =
      let l = s.layout.bindings b in
      repeat x.desc_count 0
        (λ plane. write_desc b e (get_sampler_subdesc_info l.type plane) (k.sampler x.self plane)) s

  -- by the immutable samplers of the binding and what is given
  unfoldable pub write_sampler_by :
      Option (List Sampler)
      → Option ImageInfo
      → (binding elem : ℕ) → (write_immutable : Bool) → WrittenSet
      → WrittenSet
  unfolding write_sampler
  write_sampler_by (some xs) i b e false s = s
  write_sampler_by (some xs) i b e true s = write_sampler (nth xs e) b e s
  write_sampler_by none none b e immutable s = s
  write_sampler_by none (some i) b e immutable s = write_sampler i.sampler b e s

  -- write_sampler_desc
  unfoldable pub write_sampler_desc :
      Option ImageInfo → (binding elem : ℕ) → (write_immutable : Bool) → WrittenSet → WrittenSet
  unfolding write_sampler_by
  write_sampler_desc i b e immutable s =
      write_sampler_by (s.layout.bindings b).immutable_samplers i b e immutable s

  -- by the view, if there is one
  unfoldable pub write_view :
      Option ImageView → (binding elem : ℕ) → DescriptorType → WrittenSet → WrittenSet
  unfolding write_desc repeat
  write_view none b e t s =
      let l = s.layout.bindings b in
      repeat l.textures_per_desc 0
        (λ plane. write_desc b e (get_sampler_subdesc_info l.type plane) k.null_descriptor) s
  write_view (some v) b e t s =
      repeat (s.layout.bindings b).textures_per_desc 0
        (λ plane.
          write_desc b e (get_tex_subdesc_info t plane)
            (if is_storage_image t then v.storage_tex plane else v.tex plane))
        s

  -- write_image_view_desc
  unfoldable pub write_image_view_desc :
      Option ImageInfo → (binding elem : ℕ) → DescriptorType → WrittenSet → WrittenSet
  unfolding write_view
  write_image_view_desc none b e t s = s
  write_image_view_desc (some i) b e t s = write_view i.image_view b e t s

  -- panvk_buffer_range
  abbrev pub buffer_range : Buffer → (offset range : ℕ) → ℕ
  buffer_range b offset range =
      if b.device_address == 0 then 0 else k.vk_buffer_range b offset range

  -- the descriptor of write_buffer_desc
  abbrev pub buffer_desc : BufferInfo → DescriptorType → Bytes
  buffer_desc i t = elim i.buffer [
    | none ↦ k.null_descriptor
    | some x ↦
        k.buffer (buffer_gpu_ptr x i.offset)
          (k.align (buffer_range x i.offset i.range) (if is_storage_buffer t then 4 else 16))
  ]

  -- the entry of write_dynamic_buffer_desc: without a buffer the memory sink, 0x8ull << 60
  abbrev pub dyn_buf : BufferInfo → DynBuf
  dyn_buf i = elim i.buffer [
    | none ↦ record { dev_addr = 2 ^ 63; size = 0 }
    | some x ↦ record {
      dev_addr = buffer_gpu_ptr x i.offset;
      size = buffer_range x i.offset i.range;
    }
  ]

  -- write_dynamic_buffer_desc
  unfoldable pub write_dynamic_buffer_desc :
      BufferInfo → (binding elem : ℕ) → WrittenSet → WrittenSet
  write_dynamic_buffer_desc i b e s =
      let idx = ((s.layout.bindings b).desc_idx + e) % 2 ^ 32 in
      record s { dyn_bufs = λ x. if x == idx then dyn_buf i else s.dyn_bufs x }

  -- write_buffer_view_desc, where a view has a descriptor
  abbrev pub view_desc : Option Bytes → Bytes
  view_desc none = k.null_descriptor
  view_desc (some d) = d
