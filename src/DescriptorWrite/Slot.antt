-- ===== src/DescriptorWrite/Slot.antt =====
-- What the write of one descriptor does to the places of the others.
use pan_vk_kbase.Prelude.{
  ℕ, ◌+◌, ◌-◌, ◌*◌, ◌%◌, ◌^◌, ◌<◌, ◌≡◌, ◌≢◌, ◌⊎◌, inl, inr, refl, sym, ap, ◌∙◌, Bool, true, false,
  ◌&&◌, none, some, List, leb, ltb, ◌==◌, if◌then◌else◌, arith,
}
use pan_vk_kbase.DescriptorLayout.{
  DescriptorType, is_combined, Sampler, Binding, BindingLayout, Subdesc, subdesc_idx, desc_index,
  create_layout, descriptor_size,
}
use pan_vk_kbase.DescriptorLayout.Place.{total, IsAscending, desc_count-create_layout}
use pan_vk_kbase.DescriptorLayout.Index.{IsSlot, desc_index-inside, desc_index-injective}
use pan_vk_kbase.DescriptorWrite.{
  Bytes, Packing, WrittenSet, offset_b, put_bytes, write_desc, write_desc_data, repeat, ImageInfo,
  write_sampler_by, write_sampler_desc, write_view, write_image_view_desc, get_sampler_subdesc_info,
}

-- a byte of a slot
unfoldable pub slot : WrittenSet → (binding elem : ℕ) → Subdesc → (byte : ℕ) → ℕ
slot s b e sub o = s.bytes (offset_b s b e sub 0 + o)

place : ℕ → ℕ
place i = (0 + i * descriptor_size) % 2 ^ 32

in_slot :
    (i j o : ℕ)
    → i < 2 ^ 27
    → j < 2 ^ 27
    → o < 32
    → (leb (place i) (place j + o) && ltb (place j + o) (place i + 32)) ≡ (i == j)
unfolding place
in_slot i j o h g l = ground arith

choose :
    (b c : Bool) (i j o : ℕ) (src : Bytes) (y : ℕ)
    → b ≡ c
    → c ≡ (i == j)
    → (if b then src (place j + o - place i) else y) ≡ (if c then src o else y)
choose true true i j o src y e q =
    let r : i ≡ j = ground (arith, q) in ap src (omega (arith, ap place r))
choose false false i j o src y e q = refl
choose true false i j o src y e q = ground (arith, e)
choose false true i j o src y e q = ground (arith, e)

put_bytes-slot :
    (i j o : ℕ) (src bytes : Bytes)
    → i < 2 ^ 27
    → j < 2 ^ 27
    → o < 32
    → put_bytes (place i) 32 src bytes (place j + o)
      ≡ (if i == j then src o else bytes (place j + o))
put_bytes-slot i j o src bytes h g l =
    choose (leb (place i) (place j + o) && ltb (place j + o) (place i + 32)) (i == j) i j o src
      (bytes (place j + o)) (in_slot i j o h g l) refl

if_other : (x y a c : ℕ) → x ≢ y → (if x == y then a else c) ≡ c
if_other x y a c h = ground (arith, h)

if_same : (x a c : ℕ) → (if x == x then a else c) ≡ a
if_same x a c = ground arith

-- The slot that is written, and any other.
slot-write_desc :
    (s : WrittenSet) (b e : ℕ) (sub : Subdesc) (b' e' : ℕ) (sub' : Subdesc) (src : Bytes) (o : ℕ)
    → desc_index (s.layout.bindings b) e sub < 2 ^ 27
    → desc_index (s.layout.bindings b') e' sub' < 2 ^ 27
    → o < 32
    → slot (write_desc b e sub src s) b' e' sub' o ≡ (
        if desc_index (s.layout.bindings b) e sub == desc_index (s.layout.bindings b') e' sub'
        then src o
        else slot s b' e' sub' o)
unfolding slot write_desc write_desc_data offset_b place
slot-write_desc s b e sub b' e' sub' src o h g l =
    put_bytes-slot (desc_index (s.layout.bindings b) e sub)
      (desc_index (s.layout.bindings b') e' sub') o src s.bytes h g l

module _ (bs : List Binding) (sorted : IsAscending 0 bs) (small : total bs < 2 ^ 27) where
  small_index :
      (n e : ℕ) (s : Subdesc)
      → IsSlot ((create_layout bs).bindings n) e s
      → desc_index ((create_layout bs).bindings n) e s < 2 ^ 27
  small_index n e s i =
      let c = desc_index-inside bs sorted (omega arith) n e s i in
      omega (arith, c, desc_count-create_layout bs sorted (omega arith))

  -- In a set whose layout was created of sorted bindings with fewer than 2 ^ 27 descriptors in
  -- all, the write of one descriptor leaves the bytes of each other: of another binding, element
  -- or part.
  pub write_desc-keeps_others :
      (s : WrittenSet) (n e m f : ℕ) (sub sub' : Subdesc) (src : Bytes) (o : ℕ)
      → s.layout ≡ create_layout bs
      → let bind = (create_layout bs).bindings in
        IsSlot (bind n) e sub
        → IsSlot (bind m) f sub'
        → (n ≢ m) ⊎ (e ≢ f) ⊎ (subdesc_idx (bind n) sub ≢ subdesc_idx (bind m) sub')
        → o < 32
        → slot (write_desc n e sub src s) m f sub' o ≡ slot s m f sub' o
  write_desc-keeps_others s n e m f sub sub' src o lay a b apart l =
      let bind = (create_layout bs).bindings in
      let same : (n e : ℕ) (sub : Subdesc)
          → desc_index (s.layout.bindings n) e sub ≡ desc_index (bind n) e sub =
        λ n e sub. ap (λ y. desc_index (y.bindings n) e sub) lay in
      let w =
        slot-write_desc s n e sub m f sub' src o
          (omega (arith, same n e sub, small_index n e sub a))
          (omega (arith, same m f sub', small_index m f sub' b)) l in
      w
      ∙ if_other (desc_index (s.layout.bindings n) e sub) (desc_index (s.layout.bindings m) f sub')
          (src o) (slot s m f sub' o)
          (λ q.
            let i =
              desc_index-injective bs sorted (omega arith) n m e f sub sub' a b
                (sym (same n e sub) ∙ q ∙ same m f sub') in
            elim apart [ inl d ↦ d i.0 | inr (inl d) ↦ d i.1 | inr (inr d) ↦ d i.2 ])

module _ (k : Packing) (s : WrittenSet) (b e : ℕ) (xs : List Sampler) where
  abbrev pub bound : BindingLayout
  bound = s.layout.bindings b

  abbrev pub view_less : ImageInfo
  view_less = record { sampler = none; image_view = none }

  -- a null view, and what is done for the sampler
  abbrev pub updated : WrittenSet
  updated =
      write_sampler_desc k (some view_less) b e false
        (write_image_view_desc k (some view_less) b e DescriptorType.combined_image_sampler s)

  updated-write_desc :
      is_combined bound.type ≡ true
      → bound.immutable_samplers ≡ some xs
      → bound.textures_per_desc ≡ 1
      → updated ≡ write_desc b e (Subdesc.sampler_subdesc 0) k.null_descriptor s
  unfolding write_sampler_desc write_sampler_by write_image_view_desc write_view repeat
  updated-write_desc c i t =
      let f = λ (plane : ℕ).
        write_desc b e (get_sampler_subdesc_info bound.type plane) k.null_descriptor in
      let d = write_desc b e (Subdesc.sampler_subdesc 0) k.null_descriptor s in
      let view : write_view k none b e DescriptorType.combined_image_sampler s ≡ d =
        ap (λ n. repeat n 0 f s) t
        ∙ ap
            (λ x.
              write_desc b e (if x then Subdesc.sampler_subdesc 0 else Subdesc.no_subdesc)
                k.null_descriptor s)
            c in
      ap
        (λ (w : WrittenSet).
          write_sampler_by k (w.layout.bindings b).immutable_samplers (some view_less) b e false w)
        view
      ∙ ap (λ o. write_sampler_by k o (some view_less) b e false d) i

  abbrev pub sampler_index : ℕ
  sampler_index = desc_index bound e (Subdesc.sampler_subdesc 0)

  abbrev pub tex_index : ℕ
  tex_index = desc_index bound e (Subdesc.tex_subdesc 0)

  -- An update with a null view of a combined descriptor of one texture, whose samplers are
  -- immutable and whose two places differ and lie in the first 2 ^ 27 of the set, puts the null
  -- descriptor in the place of the sampler and leaves that of the texture.
  pub null_view-sampler_lost :
      (o : ℕ)
      → is_combined bound.type ≡ true
      → bound.immutable_samplers ≡ some xs
      → bound.textures_per_desc ≡ 1
      → sampler_index < 2 ^ 27
      → tex_index < 2 ^ 27
      → sampler_index ≢ tex_index
      → o < 32
      → (slot updated b e (Subdesc.sampler_subdesc 0) o ≡ k.null_descriptor o)
        × (slot updated b e (Subdesc.tex_subdesc 0) o ≡ slot s b e (Subdesc.tex_subdesc 0) o)
  null_view-sampler_lost o c i t hs ht apart l =
      let u = updated-write_desc c i t in
      let sub = Subdesc.sampler_subdesc 0 in
      (
        ap (λ w. slot w b e sub o) u
            ∙ slot-write_desc s b e sub b e sub k.null_descriptor o hs hs l
            ∙ if_same sampler_index (k.null_descriptor o) (slot s b e sub o),
        ap (λ w. slot w b e (Subdesc.tex_subdesc 0) o) u
            ∙ slot-write_desc s b e sub b e (Subdesc.tex_subdesc 0) k.null_descriptor o hs ht l
            ∙ if_other sampler_index tex_index (k.null_descriptor o)
                (slot s b e (Subdesc.tex_subdesc 0) o) apart,
      )
