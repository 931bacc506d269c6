-- ===== src/DescriptorLayout.antt =====
-- Layouts of descriptor sets: mesa_src/mesa_vulkan/panvk_vX_descriptor_set_layout.c and
-- panvk_descriptor_set_layout.h. The bindings come sorted by their number, as
-- vk_create_sorted_bindings of the Vulkan runtime returns them. The hash of a layout, its memory and
-- the assertions are left out.
pub mod Place
pub mod Index
pub mod Support
pub mod Tests
use pan_vk_kbase.Prelude.{
  ℕ, zero, suc, ◌+◌, ◌-◌, ◌*◌, ◌/◌, ◌%◌, ◌^◌, Bool, true, false, not, ◌&&◌, ◌||◌, max, min, Option,
  none, some, List, [], ◌∷◌, leb, ltb, ◌==◌, if◌then◌else◌,
}

-- VkDescriptorType; the zero is `sampler`
pub data DescriptorType : Type 0 where
  sampler combined_image_sampler sampled_image storage_image : DescriptorType
  uniform_texel_buffer storage_texel_buffer uniform_buffer storage_buffer : DescriptorType
  uniform_buffer_dynamic storage_buffer_dynamic input_attachment : DescriptorType
  inline_uniform_block mutable : DescriptorType

abbrev pub is_texture : DescriptorType → Bool
is_texture DescriptorType.sampled_image = true
is_texture DescriptorType.storage_image = true
is_texture DescriptorType.input_attachment = true
is_texture DescriptorType.combined_image_sampler = true
is_texture DescriptorType.mutable = true
is_texture _ = false

abbrev pub is_sampler : DescriptorType → Bool
is_sampler DescriptorType.sampler = true
is_sampler DescriptorType.combined_image_sampler = true
is_sampler DescriptorType.mutable = true
is_sampler _ = false

abbrev pub is_combined : DescriptorType → Bool
is_combined DescriptorType.combined_image_sampler = true
is_combined _ = false

abbrev pub is_inline_block : DescriptorType → Bool
is_inline_block DescriptorType.inline_uniform_block = true
is_inline_block _ = false

-- vk_descriptor_type_is_dynamic
abbrev pub is_dynamic : DescriptorType → Bool
is_dynamic DescriptorType.uniform_buffer_dynamic = true
is_dynamic DescriptorType.storage_buffer_dynamic = true
is_dynamic _ = false

abbrev pub is_dynamic_ssbo : DescriptorType → Bool
is_dynamic_ssbo DescriptorType.storage_buffer_dynamic = true
is_dynamic_ssbo _ = false

-- struct panvk_sampler: its address, the number of its descriptors, and with a conversion what
-- panvk_image_get_tex_count gives for the format
pub record Sampler : Type 0 where
  pub self : ℕ
  pub desc_count : ℕ
  pub yuv_tex_count : Option ℕ

-- VkDescriptorSetLayoutBinding, with its flag for a variable count
pub record Binding : Type 0 where
  pub binding : ℕ
  pub type : DescriptorType
  pub count : ℕ
  pub immutable_samplers : Option (List Sampler)
  pub variable : Bool

-- struct panvk_descriptor_set_binding_layout
pub record BindingLayout : Type 0 where
  pub type : DescriptorType
  pub variable : Bool
  pub desc_count : ℕ
  pub desc_idx : ℕ
  pub textures_per_desc : ℕ
  pub samplers_per_desc : ℕ
  pub immutable_samplers : Option (List Sampler)

abbrev pub no_binding : BindingLayout
no_binding = record {
  type = DescriptorType.sampler;
  variable = false;
  desc_count = 0;
  desc_idx = 0;
  textures_per_desc = 0;
  samplers_per_desc = 0;
  immutable_samplers = none;
}

-- struct panvk_descriptor_set_layout: the bindings by their number, and the mask of dynamic storage
-- buffers by the bit
pub record Layout : Type 0 where
  pub desc_count : ℕ
  pub dyn_buf_count : ℕ
  pub dyn_ssbos : ℕ → Bool
  pub binding_count : ℕ
  pub bindings : ℕ → BindingLayout

-- panvk_get_desc_stride
abbrev pub desc_stride : DescriptorType → (textures samplers : ℕ) → ℕ
desc_stride t textures samplers = if is_combined t then (textures + samplers) % 2 ^ 32 else 1

-- PANVK_DESCRIPTOR_SIZE
abbrev pub descriptor_size : ℕ
descriptor_size = 32

-- panvk_get_iub_desc_count
abbrev pub iub_desc_count : (size : ℕ) → ℕ
iub_desc_count size = (size + 31) % 2 ^ 32 / descriptor_size + 1

-- panvk_get_iub_size, of one descriptor at least
abbrev pub iub_size : (desc_count : ℕ) → ℕ
iub_size desc_count = (desc_count - 1) * descriptor_size % 2 ^ 32

-- the samplers of a binding that may have immutable ones: binding_has_immutable_samplers
abbrev pub immutable_of : Binding → Option (List Sampler)
immutable_of b = if is_sampler b.type then b.immutable_samplers else none

-- How many textures and samplers a descriptor has: set_immutable_sampler, over the samplers.
pub record PerDesc : Type 0 where
  pub textures : ℕ
  pub samplers : ℕ

abbrev pub with_sampler : Sampler → PerDesc → PerDesc
with_sampler s d = elim s.yuv_tex_count [
  | none ↦ d
  | some n ↦ record { textures = max n d.textures; samplers = max s.desc_count d.samplers }
]

unfoldable pub with_samplers : List Sampler → PerDesc → PerDesc
with_samplers [] d = d
with_samplers (s ∷ ss) d = with_samplers ss (with_sampler s d)

abbrev pub with_immutable : Option (List Sampler) → PerDesc → PerDesc
unfolding with_samplers
with_immutable none d = d
with_immutable (some ss) d = with_samplers ss d

unfoldable pub per_desc : Binding → PerDesc
unfolding with_samplers
per_desc b = with_immutable (immutable_of b) (record {
  textures = if is_texture b.type then 1 else 0;
  samplers = if is_sampler b.type then 1 else 0;
})

-- the descriptors of a binding, in an inline block its bytes
abbrev pub desc_count_of : Binding → ℕ
desc_count_of b = if is_inline_block b.type then iub_desc_count b.count else b.count

unfoldable pub stride_of : Binding → ℕ
unfolding per_desc
stride_of b = desc_stride b.type (per_desc b).textures (per_desc b).samplers

unfoldable pub layout_of : (idx : ℕ) → Binding → BindingLayout
unfolding per_desc
layout_of idx b = record {
  type = b.type;
  variable = b.variable;
  desc_count = desc_count_of b;
  desc_idx = idx;
  textures_per_desc = (per_desc b).textures;
  samplers_per_desc = (per_desc b).samplers;
  immutable_samplers = immutable_of b;
}

abbrev pub set_binding : ℕ → BindingLayout → (ℕ → BindingLayout) → ℕ → BindingLayout
set_binding n l bs x = if x == n then l else bs x

-- a descriptor among the dynamic buffers, or in the set
unfoldable pub place_binding : (dynamic : Bool) → Binding → Layout → Layout
unfolding layout_of stride_of
place_binding true b l = record l {
  dyn_buf_count = (l.dyn_buf_count + desc_count_of b) % 2 ^ 32;
  dyn_ssbos = λ i.
      l.dyn_ssbos i
      || (is_dynamic_ssbo b.type && leb l.dyn_buf_count i && ltb i (l.dyn_buf_count + b.count));
  bindings = set_binding b.binding (layout_of l.dyn_buf_count b) l.bindings;
}
place_binding false b l = record l {
  desc_count = (l.desc_count + stride_of b * desc_count_of b) % 2 ^ 32;
  bindings = set_binding b.binding (layout_of l.desc_count b) l.bindings;
}

-- one round of the loop: a binding without descriptors is passed over
unfoldable pub add_binding : (is_empty : Bool) → Binding → Layout → Layout
unfolding place_binding
add_binding true b l = l
add_binding false b l = place_binding (is_dynamic b.type) b l

unfoldable pub add_bindings : List Binding → Layout → Layout
unfolding add_binding
add_bindings [] l = l
add_bindings (b ∷ bs) l = add_bindings bs (add_binding (b.count == 0) b l)

-- one more than the number of the last binding
abbrev pub num_bindings : List Binding → ℕ
num_bindings [] = 0
num_bindings (b ∷ []) = b.binding + 1
num_bindings (b ∷ c ∷ bs) = num_bindings (c ∷ bs)

abbrev pub empty_layout : (binding_count : ℕ) → Layout
empty_layout n = record {
  desc_count = 0;
  dyn_buf_count = 0;
  dyn_ssbos = λ i. false;
  binding_count = n;
  bindings = λ n. no_binding;
}

-- panvk_per_arch(CreateDescriptorSetLayout), on the sorted bindings
unfoldable pub create_layout : List Binding → Layout
unfolding add_bindings
create_layout bs = add_bindings bs (empty_layout (num_bindings bs))

pub data Subdesc : Type 0 where
  no_subdesc : Subdesc
  tex_subdesc sampler_subdesc : (plane : ℕ) → Subdesc

-- get_subdesc_idx: the texture stands first
unfoldable pub subdesc_idx : BindingLayout → Subdesc → ℕ
subdesc_idx l Subdesc.no_subdesc = 0
subdesc_idx l (Subdesc.sampler_subdesc plane) =
    (l.textures_per_desc + min plane ((l.samplers_per_desc + 2 ^ 32 - 1) % 2 ^ 32)) % 2 ^ 32
subdesc_idx l (Subdesc.tex_subdesc plane) = min plane ((l.textures_per_desc + 2 ^ 32 - 1) % 2 ^ 32)

abbrev pub stride_in : BindingLayout → ℕ
stride_in l = desc_stride l.type l.textures_per_desc l.samplers_per_desc

-- panvk_get_desc_index
unfoldable pub desc_index : BindingLayout → (elem : ℕ) → Subdesc → ℕ
unfolding subdesc_idx
desc_index l elem s = (l.desc_idx + elem * stride_in l + subdesc_idx l s) % 2 ^ 32
