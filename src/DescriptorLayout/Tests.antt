-- ===== src/DescriptorLayout/Tests.antt =====
-- Runs of the definitions of DescriptorLayout, and its theorems at concrete inputs.
use pan_vk_kbase.Prelude.{ℕ, ◌+◌, ◌^◌, ◌≤◌, ◌<◌, ◌≡◌, refl, false, none, some, List, [], ◌∷◌, arith}
use mathlib.Core.List.Perm
use pan_vk_kbase.DescriptorLayout.{
  DescriptorType, Sampler, Binding, Subdesc, with_samplers, per_desc, stride_of, layout_of,
  place_binding, add_binding, add_bindings, create_layout, subdesc_idx, desc_index,
}
use pan_vk_kbase.DescriptorLayout.Place.{size_of, total}
use pan_vk_kbase.DescriptorLayout.Index.{desc_index-injective}
use pan_vk_kbase.DescriptorLayout.Support.{
  Asked, Counts, is_list_supported, asked_count, asked_descs, count_binding, count_if, count_all,
  max_variable_count, support_of, layout_support, create_layout-layout_support,
  max_variable_count-fits, variable_descs, max_descs_per_set,
}

-- a sampler for two planes
abbrev two_planes : Sampler
two_planes = record { self = 64; desc_count = 2; yuv_tex_count = some 3 }

abbrev plain_binding : ℕ → DescriptorType → ℕ → Binding
plain_binding n t c = record {
  binding = n;
  type = t;
  count = c;
  immutable_samplers = none;
  variable = false;
}

-- a buffer, a combined sampler of three textures and two samplers, and an inline block of 40 bytes
abbrev three_bindings : List Binding
three_bindings =
    plain_binding 0 DescriptorType.uniform_buffer 2
    ∷ record (plain_binding 2 DescriptorType.combined_image_sampler 2) {
      immutable_samplers = some (two_planes ∷ two_planes ∷ []);
    }
    ∷ plain_binding 5 DescriptorType.inline_uniform_block 40
    ∷ []

three_bindings-desc_count : (create_layout three_bindings).desc_count ≡ 15
unfolding create_layout add_bindings add_binding place_binding stride_of per_desc with_samplers
three_bindings-desc_count = refl

-- the second sampler plane of the second element
three_bindings-index :
    desc_index ((create_layout three_bindings).bindings 2) 1 (Subdesc.sampler_subdesc 1) ≡ 11
unfolding create_layout add_bindings add_binding place_binding layout_of stride_of per_desc
    with_samplers desc_index subdesc_idx
three_bindings-index = refl

three_bindings-total : total three_bindings ≡ 15
unfolding total size_of stride_of per_desc with_samplers
three_bindings-total = refl

three_bindings-small : total three_bindings < 2 ^ 32
three_bindings-small = omega (arith, three_bindings-total)

abbrev sampler_binding : ℕ
sampler_binding = 2

abbrev second_element : ℕ
second_element = 1

desc_index-injective_example :
    (sampler_binding ≡ sampler_binding)
    × (second_element ≡ second_element)
    × (subdesc_idx ((create_layout three_bindings).bindings 2) (Subdesc.sampler_subdesc 1)
        ≡ subdesc_idx ((create_layout three_bindings).bindings 2) (Subdesc.sampler_subdesc 1))
unfolding create_layout add_bindings add_binding place_binding layout_of stride_of per_desc
    with_samplers desc_index subdesc_idx
desc_index-injective_example =
    desc_index-injective three_bindings (omega arith, (omega arith, (omega arith, tt)))
      three_bindings-small 2 2 1 1 (Subdesc.sampler_subdesc 1) (Subdesc.sampler_subdesc 1)
      (refl, omega arith, omega arith) (refl, omega arith, omega arith) refl

abbrev three_asked : List Asked
three_asked =
    record { binding = plain_binding 0 DescriptorType.uniform_buffer 2; mutable_types = [] }
    ∷ record {
      binding = record (plain_binding 2 DescriptorType.combined_image_sampler 2) {
        immutable_samplers = some (two_planes ∷ two_planes ∷ []);
      };
      mutable_types = [];
    }
    ∷ record {
      binding = plain_binding 5 DescriptorType.inline_uniform_block 40;
      mutable_types = [];
    }
    ∷ []

three_asked-support : layout_support three_asked ≡ some 0
unfolding layout_support support_of count_all count_if count_binding is_list_supported asked_descs
    asked_count stride_of per_desc with_samplers max_variable_count
three_asked-support = refl

-- Counts that run over 32 bits are taken for small ones.
huge_counts-supported :
    layout_support (
      record {
        binding = plain_binding 0 DescriptorType.uniform_buffer (2 ^ 31);
        mutable_types = [];
      }
      ∷ record {
        binding = plain_binding 1 DescriptorType.uniform_buffer (2 ^ 31);
        mutable_types = [];
      }
      ∷ [])
    ≡ some 0
unfolding layout_support support_of count_all count_if count_binding is_list_supported asked_descs
    asked_count stride_of per_desc with_samplers max_variable_count
huge_counts-supported = refl

create_layout-layout_support_example :
    ((create_layout three_bindings).desc_count ≡ total three_bindings)
    × (total three_bindings ≤ max_descs_per_set)
unfolding asked_descs asked_count stride_of per_desc with_samplers
create_layout-layout_support_example =
    create_layout-layout_support three_asked three_bindings 0 (Perm.refl three_bindings)
      (omega arith, (omega arith, (omega arith, tt))) (omega arith) three_asked-support

-- four images, and an inline block whose size is open
abbrev open_block : Counts
open_block = record {
  desc_count = 6;
  dyn_buf_count = 0;
  non_variable_count = 4;
  variable_stride = 1;
  variable_type = DescriptorType.inline_uniform_block;
}

max_variable_count-fits_example :
    4 + variable_descs open_block (max_variable_count open_block) ≤ max_descs_per_set
max_variable_count-fits_example = max_variable_count-fits open_block (omega arith) (omega arith)
