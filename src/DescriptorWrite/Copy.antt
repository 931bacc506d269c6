-- ===== src/DescriptorWrite/Copy.antt =====
-- Copies between sets and the update of many, in the same file.
use pan_vk_kbase.Prelude.{
  ℕ, zero, suc, ◌+◌, ◌-◌, ◌*◌, ◌%◌, ◌^◌, true, false, ◌&&◌, Option, List, [], ◌∷◌, leb, ltb, ◌==◌,
  if◌then◌else◌,
}
use pan_vk_kbase.DescriptorLayout.{
  DescriptorType, BindingLayout, Subdesc, descriptor_size, stride_in,
}
use pan_vk_kbase.DescriptorWrite.{Bytes, Packing, DynBuf, WrittenSet, offset_b, write_desc_data}
use pan_vk_kbase.DescriptorWrite.Update.{Write, descriptor_set_write, descriptor_set_flush}

-- the sets by their name
abbrev pub Sets : Type 0
Sets = ℕ → WrittenSet

unfoldable pub change_set : (name : ℕ) → (WrittenSet → WrittenSet) → Sets → Sets
change_set d f sets x = if x == d then f (sets x) else sets x

-- VkCopyDescriptorSet
pub record CopySet : Type 0 where
  pub src_set : ℕ
  pub src_binding : ℕ
  pub src_elem : ℕ
  pub dst_set : ℕ
  pub dst_binding : ℕ
  pub dst_elem : ℕ
  pub count : ℕ

-- get_desc_slot_ptr, as what is read from there on
unfoldable pub slot_bytes : WrittenSet → (binding elem : ℕ) → Bytes
unfolding offset_b
slot_bytes s b e o = s.bytes (offset_b s b e Subdesc.no_subdesc 0 + o)

abbrev pub src_layout : CopySet → Sets → BindingLayout
src_layout c sets = (sets c.src_set).layout.bindings c.src_binding

-- `n` descriptors from a number on
unfoldable pub copy_elems : (n i : ℕ) → CopySet → Sets → Sets
unfolding change_set slot_bytes write_desc_data
copy_elems zero i c sets = sets
copy_elems (suc n) i c sets = copy_elems n (suc i) c (
    change_set c.dst_set
      (write_desc_data c.dst_binding ((c.dst_elem + i) % 2 ^ 32) Subdesc.no_subdesc 0
        (slot_bytes (sets c.src_set) c.src_binding ((c.src_elem + i) % 2 ^ 32))
        (descriptor_size * stride_in (src_layout c sets) % 2 ^ 32))
      sets)

-- entries of `dyn_bufs`
abbrev pub copy_entries : (dst src n : ℕ) → (old new : ℕ → DynBuf) → ℕ → DynBuf
copy_entries dst src n old new x =
    if leb dst x && ltb x (dst + n) then old (src + (x - dst)) else new x

abbrev pub with_entries : CopySet → Sets → WrittenSet → WrittenSet
with_entries c sets s = record s {
  dyn_bufs =
      copy_entries (((s.layout.bindings c.dst_binding).desc_idx + c.dst_elem) % 2 ^ 32)
        (((src_layout c sets).desc_idx + c.src_elem) % 2 ^ 32) c.count (sets c.src_set).dyn_bufs
        s.dyn_bufs;
}

unfoldable pub copy_dynamic : CopySet → Sets → Sets
unfolding change_set
copy_dynamic c sets = change_set c.dst_set (with_entries c sets) sets

-- the bytes of an inline block, behind its first slot
unfoldable pub copy_inline : CopySet → Sets → Sets
unfolding change_set slot_bytes write_desc_data
copy_inline c sets =
    change_set c.dst_set
      (write_desc_data c.dst_binding 1 Subdesc.no_subdesc c.dst_elem
        (λ o. slot_bytes (sets c.src_set) c.src_binding 0 (descriptor_size + c.src_elem + o))
        c.count)
      sets

-- by the type of the source
unfoldable pub copy_typed : DescriptorType → CopySet → Sets → Sets
unfolding copy_elems copy_dynamic copy_inline
copy_typed DescriptorType.uniform_buffer_dynamic c sets = copy_dynamic c sets
copy_typed DescriptorType.storage_buffer_dynamic c sets = copy_dynamic c sets
copy_typed DescriptorType.inline_uniform_block c sets = copy_inline c sets
copy_typed t c sets = copy_elems c.count 0 c sets

-- panvk_descriptor_set_copy
unfoldable pub descriptor_set_copy : CopySet → Sets → Sets
unfolding copy_typed
descriptor_set_copy c sets = copy_typed (src_layout c sets).type c sets

-- a write with the name of its set
pub record SetWrite : Type 0 where
  pub dst_set : ℕ
  pub write : Write

unfoldable pub write_sets : Packing → List SetWrite → Sets → Sets
unfolding change_set descriptor_set_write
write_sets k [] sets = sets
write_sets k (w ∷ ws) sets =
    write_sets k ws (change_set w.dst_set (descriptor_set_write k w.write false) sets)

unfoldable pub copy_sets : List CopySet → Sets → Sets
unfolding descriptor_set_copy
copy_sets [] sets = sets
copy_sets (c ∷ cs) sets = copy_sets cs (descriptor_set_copy c sets)

-- the ranges that were flushed, with the names of their sets, and the sets
pub record Updated : Type 0 where
  pub ranges : List (ℕ × Option (ℕ × ℕ))
  pub sets : Sets

-- The flushes of sets by their names, for a pool with a buffer.
unfoldable pub flush_sets : List ℕ → Sets → Updated
unfolding change_set descriptor_set_flush
flush_sets [] sets = record { ranges = []; sets = sets }
flush_sets (d ∷ ds) sets =
    let r = descriptor_set_flush true (sets d) in
    let rest = flush_sets ds (change_set d (λ s. (descriptor_set_flush true s).set) sets) in
    record { ranges = (d, r.range) ∷ rest.ranges; sets = rest.sets }

abbrev pub names_of : List SetWrite → List CopySet → List ℕ
names_of [] [] = []
names_of [] (c ∷ cs) = c.dst_set ∷ names_of [] cs
names_of (w ∷ ws) cs = w.dst_set ∷ names_of ws cs

-- panvk_per_arch(UpdateDescriptorSets)
unfoldable pub update_sets : Packing → List SetWrite → List CopySet → Sets → Updated
unfolding write_sets copy_sets flush_sets
update_sets k ws cs sets = flush_sets (names_of ws cs) (copy_sets cs (write_sets k ws sets))
