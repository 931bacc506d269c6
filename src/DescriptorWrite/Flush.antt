-- ===== src/DescriptorWrite/Flush.antt =====
-- The flush of a set covers all that was written to it.
use pan_vk_kbase.Prelude.{
  ℕ, zero, suc, ◌+◌, ◌-◌, ◌%◌, ◌^◌, ◌≡◌, refl, ◌∙◌, Bool, true, false, ◌&&◌, min, max, Option, none,
  some, List, leb, ltb, if◌then◌else◌, arith,
}
use pan_vk_kbase.DescriptorLayout.{DescriptorType, Sampler, Subdesc}
use pan_vk_kbase.DescriptorWrite.{
  Bytes, Packing, WrittenSet, write_at, write_desc, write_desc_data, repeat, ImageInfo, ImageView,
  BufferInfo, nth, write_sampler, write_sampler_by, write_sampler_desc, write_view,
  get_tex_subdesc_info, get_sampler_subdesc_info, is_storage_image, write_image_view_desc,
  write_dynamic_buffer_desc, view_desc, buffer_desc,
}
use pan_vk_kbase.DescriptorWrite.Update.{Write, write_elem, write_typed, flush_if}

-- Outside of the dirty range the memory is as it was.
unfoldable pub Kept : (old : Bytes) → WrittenSet → Type 0
Kept old s = (o : ℕ) → (leb s.dirty_min o && ltb o s.dirty_max) ≡ false → s.bytes o ≡ old o

module _ (old : Bytes) where
  outside :
      (lo hi off n o : ℕ)
      → (leb (min lo off) o && ltb o (max hi (off + n))) ≡ false
      → ((leb lo o && ltb o hi) ≡ false) × ((leb off o && ltb o (off + n)) ≡ false)
  outside lo hi off n o h = (ground (arith, h), ground (arith, h))

  not_put : (b : Bool) (x y : ℕ) → b ≡ false → (if b then x else y) ≡ y
  not_put true x y h = ground (arith, h)
  not_put false x y h = refl

  write_at-Kept :
      (off n : ℕ) (src : Bytes) (s : WrittenSet) → Kept old s → Kept old (write_at off n src s)
  unfolding Kept
  write_at-Kept off n src s h o q =
      let (inner, here) = outside s.dirty_min s.dirty_max off n o q in
      not_put (leb off o && ltb o (off + n)) (src (o - off)) (s.bytes o) here ∙ h o inner

  pub write_desc_data-Kept :
      (b e : ℕ) (sub : Subdesc) (d : ℕ) (src : Bytes) (n : ℕ) (s : WrittenSet)
      → Kept old s
      → Kept old (write_desc_data b e sub d src n s)
  unfolding write_desc_data
  write_desc_data-Kept b e sub d src n s h = write_at-Kept _ n src s h

  repeat-Kept :
      (n i : ℕ) (f : (i : ℕ) → WrittenSet → WrittenSet) (s : WrittenSet)
      → ((i : ℕ) (s : WrittenSet) → Kept old s → Kept old (f i s))
      → Kept old s
      → Kept old (repeat n i f s)
  unfolding repeat
  repeat-Kept zero i f s g h = h
  repeat-Kept (suc n) i f s g h = repeat-Kept n (suc i) f (f i s) g (g i s h)

  -- a descriptor for each plane
  planes-Kept :
      (n b e : ℕ) (sub : ℕ → Subdesc) (src : ℕ → Bytes) (s : WrittenSet)
      → Kept old s
      → Kept old (repeat n 0 (λ p. write_desc b e (sub p) (src p)) s)
  unfolding write_desc
  planes-Kept n b e sub src s h =
      repeat-Kept n 0 (λ p. write_desc b e (sub p) (src p)) s
        (λ p s g. write_desc_data-Kept b e (sub p) 0 (src p) 32 s g) h

  module _ (k : Packing) where
    write_sampler-Kept :
        (x : Option Sampler) (b e : ℕ) (s : WrittenSet)
        → Kept old s
        → Kept old (write_sampler k x b e s)
    unfolding write_sampler write_desc
    write_sampler-Kept none b e s h =
        let l = s.layout.bindings b in
        planes-Kept l.samplers_per_desc b e (λ p. get_sampler_subdesc_info l.type p)
          (λ p. k.null_descriptor) s h
    write_sampler-Kept (some x) b e s h =
        planes-Kept x.desc_count b e (λ p. get_sampler_subdesc_info (s.layout.bindings b).type p)
          (k.sampler x.self) s h

    write_sampler_by-Kept :
        (xs : Option (List Sampler)) (i : Option ImageInfo) (b e : ℕ) (m : Bool) (s : WrittenSet)
        → Kept old s
        → Kept old (write_sampler_by k xs i b e m s)
    unfolding write_sampler_by
    write_sampler_by-Kept (some xs) i b e false s h = h
    write_sampler_by-Kept (some xs) i b e true s h = write_sampler-Kept (nth xs e) b e s h
    write_sampler_by-Kept none none b e m s h = h
    write_sampler_by-Kept none (some i) b e m s h = write_sampler-Kept i.sampler b e s h

    write_sampler_desc-Kept :
        (i : Option ImageInfo) (b e : ℕ) (m : Bool) (s : WrittenSet)
        → Kept old s
        → Kept old (write_sampler_desc k i b e m s)
    unfolding write_sampler_desc
    write_sampler_desc-Kept i b e m s h = write_sampler_by-Kept _ i b e m s h

    write_view-Kept :
        (v : Option ImageView) (b e : ℕ) (t : DescriptorType) (s : WrittenSet)
        → Kept old s
        → Kept old (write_view k v b e t s)
    unfolding write_view write_desc
    write_view-Kept none b e t s h =
        let l = s.layout.bindings b in
        planes-Kept l.textures_per_desc b e (λ p. get_sampler_subdesc_info l.type p)
          (λ p. k.null_descriptor) s h
    write_view-Kept (some v) b e t s h =
        planes-Kept (s.layout.bindings b).textures_per_desc b e (get_tex_subdesc_info t)
          (λ p. if is_storage_image t then v.storage_tex p else v.tex p) s h

    write_image_view_desc-Kept :
        (i : Option ImageInfo) (b e : ℕ) (t : DescriptorType) (s : WrittenSet)
        → Kept old s
        → Kept old (write_image_view_desc k i b e t s)
    unfolding write_image_view_desc
    write_image_view_desc-Kept none b e t s h = h
    write_image_view_desc-Kept (some i) b e t s h = write_view-Kept i.image_view b e t s h

    write_dynamic-Kept :
        (i : BufferInfo) (b e : ℕ) (s : WrittenSet)
        → Kept old s
        → Kept old (write_dynamic_buffer_desc k i b e s)
    unfolding write_dynamic_buffer_desc Kept
    write_dynamic-Kept i b e s h = h

    abbrev e : Write → ℕ → ℕ
    e w j = (w.elem + j) % 2 ^ 32

    write_elem-Kept :
        (t : DescriptorType) (w : Write) (m : Bool) (j : ℕ) (s : WrittenSet)
        → Kept old s
        → Kept old (write_elem k t w m j s)
    unfolding write_elem write_desc
    write_elem-Kept DescriptorType.sampler w m j s h =
        write_sampler_desc-Kept (w.image_info j) w.binding (e w j) m s h
    write_elem-Kept DescriptorType.combined_image_sampler w m j s h =
        write_sampler_desc-Kept (w.image_info j) w.binding (e w j) m
          (write_image_view_desc k (w.image_info j) w.binding (e w j) w.type s)
          (write_image_view_desc-Kept (w.image_info j) w.binding (e w j) w.type s h)
    write_elem-Kept DescriptorType.sampled_image w m j s h =
        write_image_view_desc-Kept (w.image_info j) w.binding (e w j) w.type s h
    write_elem-Kept DescriptorType.storage_image w m j s h =
        write_image_view_desc-Kept (w.image_info j) w.binding (e w j) w.type s h
    write_elem-Kept DescriptorType.input_attachment w m j s h =
        write_image_view_desc-Kept (w.image_info j) w.binding (e w j) w.type s h
    write_elem-Kept DescriptorType.uniform_buffer_dynamic w m j s h =
        write_dynamic-Kept (w.buffer_info j) w.binding (e w j) s h
    write_elem-Kept DescriptorType.storage_buffer_dynamic w m j s h =
        write_dynamic-Kept (w.buffer_info j) w.binding (e w j) s h
    write_elem-Kept DescriptorType.inline_uniform_block w m j s h = h
    write_elem-Kept DescriptorType.mutable w m j s h = h
    write_elem-Kept DescriptorType.uniform_texel_buffer w m j s h =
        write_desc_data-Kept w.binding (e w j) Subdesc.no_subdesc 0 (view_desc k (w.buffer_view j))
          32 s h
    write_elem-Kept DescriptorType.storage_texel_buffer w m j s h =
        write_desc_data-Kept w.binding (e w j) Subdesc.no_subdesc 0 (view_desc k (w.buffer_view j))
          32 s h
    write_elem-Kept DescriptorType.uniform_buffer w m j s h =
        write_desc_data-Kept w.binding (e w j) Subdesc.no_subdesc 0
          (buffer_desc k (w.buffer_info j) w.type) 32 s h
    write_elem-Kept DescriptorType.storage_buffer w m j s h =
        write_desc_data-Kept w.binding (e w j) Subdesc.no_subdesc 0
          (buffer_desc k (w.buffer_info j) w.type) 32 s h

    pub write_typed-Kept :
        (t : DescriptorType) (w : Write) (m : Bool) (s : WrittenSet)
        → Kept old s
        → Kept old (write_typed k t w m s)
    unfolding write_typed
    write_typed-Kept DescriptorType.inline_uniform_block w m s h =
        write_desc_data-Kept w.binding 1 Subdesc.no_subdesc w.elem w.inline_block w.count s h
    write_typed-Kept t w m s h =
        repeat-Kept w.count 0 (write_elem k t w m) s (λ j s g. write_elem-Kept t w m j s g) h

-- The range of a flush holds a byte.
abbrev pub covers : Option (ℕ × ℕ) → ℕ → Bool
covers none o = false
covers (some (a, n)) o = leb a o && ltb o (a + n)

pub flush_if-Kept :
    (b : Bool) (old : Bytes) (s : WrittenSet) (o : ℕ)
    → leb s.dirty_max s.dirty_min ≡ b
    → Kept old s
    → covers (flush_if b true s).range o ≡ false
    → s.bytes o ≡ old o
unfolding Kept flush_if
flush_if-Kept true old s o e h c = h o (ground (arith, e))
flush_if-Kept false old s o e h c = h o (ground (arith, e, c))
