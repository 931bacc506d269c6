-- ===== src/DescriptorWrite/Tests.antt =====
-- Runs of the definitions of DescriptorWrite, and its theorems at concrete inputs.
use pan_vk_kbase.Prelude.{◌+◌, ◌≡◌, inl, refl, ap, false, none, some, List, [], ◌∷◌, arith}
use pan_vk_kbase.DescriptorLayout.{
  DescriptorType, Sampler, Binding, Layout, Subdesc, with_samplers, per_desc, stride_of, layout_of,
  place_binding, add_binding, add_bindings, create_layout, subdesc_idx, desc_index,
}
use pan_vk_kbase.DescriptorLayout.Place.{size_of, total}
use pan_vk_kbase.DescriptorWrite.{Packing, WrittenSet, write_desc, write_desc_data, repeat}
use pan_vk_kbase.DescriptorWrite.Update.{
  Write, size_max, write_elem, write_typed, descriptor_set_write, flush_if, descriptor_set_flush,
}
use pan_vk_kbase.DescriptorWrite.Copy.{
  Sets, SetWrite, CopySet, change_set, slot_bytes, copy_elems, copy_typed, descriptor_set_copy,
  write_sets, copy_sets, flush_sets, update_sets,
}
use pan_vk_kbase.DescriptorWrite.Cover.{covered, update_sets-covered}
use pan_vk_kbase.DescriptorWrite.Slot.{
  slot, updated, write_desc-keeps_others, null_view-sampler_lost,
}

abbrev packing : Packing
packing = record {
  null_descriptor = λ o. 255;
  buffer = λ a n o. a + n + o;
  sampler = λ x p o. x + p;
  align = λ v a. v;
  vk_buffer_range = λ b o n. n;
}

abbrev plain_sampler : Sampler
plain_sampler = record { self = 64; desc_count = 1; yuv_tex_count = none }

-- two buffers, and a combined sampler whose sampler is immutable
abbrev two_bindings : List Binding
two_bindings =
    record {
      binding = 0;
      type = DescriptorType.storage_buffer;
      count = 2;
      immutable_samplers = none;
      variable = false;
    }
    ∷ record {
      binding = 1;
      type = DescriptorType.combined_image_sampler;
      count = 1;
      immutable_samplers = some (plain_sampler ∷ []);
      variable = false;
    }
    ∷ []

abbrev clean_set : Layout → WrittenSet
clean_set l = record {
  layout = l;
  bytes = λ o. 7;
  dirty_min = size_max;
  dirty_max = 0;
  dyn_bufs = λ x. record { dev_addr = 0; size = 0 };
}

two_bindings-total : total two_bindings ≡ 4
unfolding total size_of stride_of per_desc with_samplers
two_bindings-total = refl

write_desc-keeps_others_example :
    let s = clean_set (create_layout two_bindings) in
    slot
      (write_desc 0 1 Subdesc.no_subdesc packing.null_descriptor s)
      1
      0
      (Subdesc.sampler_subdesc 0)
      5
    ≡ slot s 1 0 (Subdesc.sampler_subdesc 0) 5
unfolding create_layout add_bindings add_binding place_binding layout_of stride_of per_desc
    with_samplers desc_index subdesc_idx
write_desc-keeps_others_example =
    write_desc-keeps_others two_bindings (omega arith, (omega arith, tt))
      (omega (arith, two_bindings-total)) (clean_set (create_layout two_bindings)) 0 1 1 0
      Subdesc.no_subdesc (Subdesc.sampler_subdesc 0) packing.null_descriptor 5 refl
      (refl, omega arith, omega arith) (refl, omega arith, omega arith)
      (inl (λ q. omega (arith, q))) (omega arith)

null_view-sampler_lost_example :
    let s = clean_set (create_layout two_bindings) in
    let u = updated packing s 1 0 (plain_sampler ∷ []) in
    (slot u 1 0 (Subdesc.sampler_subdesc 0) 5 ≡ 255)
    × (slot u 1 0 (Subdesc.tex_subdesc 0) 5 ≡ slot s 1 0 (Subdesc.tex_subdesc 0) 5)
unfolding create_layout add_bindings add_binding place_binding layout_of stride_of per_desc
    with_samplers desc_index subdesc_idx
null_view-sampler_lost_example =
    null_view-sampler_lost packing (clean_set (create_layout two_bindings)) 1 0 (plain_sampler ∷ [])
      5 refl refl refl (omega arith) (omega arith) (λ q. omega (arith, q)) (omega arith)

-- a write of the second buffer
abbrev one_write : Write
one_write = record {
  type = DescriptorType.storage_buffer;
  binding = 0;
  elem = 1;
  count = 1;
  image_info = λ j. none;
  buffer_info = λ j. record { buffer = none; offset = 0; range = 0 };
  buffer_view = λ j. none;
  inline_block = λ o. 0;
}

-- set 0 is written, and then copied to set 1
abbrev two_sets : Sets
two_sets x = clean_set (create_layout two_bindings)

abbrev writes : List SetWrite
writes = record { dst_set = 0; write = one_write } ∷ []

abbrev copies : List CopySet
copies =
    record {
      src_set = 0;
      src_binding = 0;
      src_elem = 1;
      dst_set = 1;
      dst_binding = 0;
      dst_elem = 0;
      count = 1;
    }
    ∷ []

two_sets-update :
    ((update_sets packing writes copies two_sets).ranges
      ≡ ((0, some (32, 32)) ∷ (1, some (0, 32)) ∷ []))
    × (((update_sets packing writes copies two_sets).sets 1).bytes 5 ≡ 255)
unfolding update_sets write_sets copy_sets descriptor_set_copy copy_typed copy_elems slot_bytes
    change_set flush_sets descriptor_set_flush flush_if descriptor_set_write write_typed write_elem
    repeat write_desc write_desc_data create_layout add_bindings add_binding place_binding layout_of
    stride_of per_desc with_samplers desc_index subdesc_idx
two_sets-update = (refl, refl)

update_sets-covered_example :
    ((update_sets packing writes copies two_sets).sets 1).bytes 64 ≡ (two_sets 1).bytes 64
update_sets-covered_example =
    update_sets-covered packing writes copies two_sets 1 64 refl
      (ap (λ r. covered r 1 64) two_sets-update.0)
