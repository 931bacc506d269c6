-- ===== src/DescriptorLayout/Index.antt =====
-- The places that panvk_get_desc_index gives to the descriptors of a layout.
use pan_vk_kbase.Prelude.{
  ℕ, suc, ◌+◌, ◌*◌, ◌%◌, ◌^◌, ◌≤◌, ◌<◌, ◌≡◌, ◌⊎◌, inl, inr, refl, sym, ap, ◌∙◌, subst, false, List,
  arith,
}
use native.Mathlib.Nat.{suc-mul, mul-le-mul_right, mul_comm}
use native.Mathlib.Decide.{ℕ_discrete}
use pan_vk_kbase.DescriptorLayout.{
  Binding, BindingLayout, is_dynamic, stride_in, Subdesc, subdesc_idx, desc_index, create_layout,
}
use pan_vk_kbase.DescriptorLayout.Place.{
  extent, start, total, IsAscending, create_layout-inside, create_layout-IsApart,
  desc_count-create_layout,
}

-- A descriptor that is there: an element of the binding, and a part of the element.
abbrev pub IsSlot : BindingLayout → (elem : ℕ) → Subdesc → Type 0
IsSlot l e s = (is_dynamic l.type ≡ false) × (e < l.desc_count) × (subdesc_idx l s < stride_in l)

row_below : (e c s o : ℕ) → e < c → o < s → e * s + o < s * c
row_below e c s o h g =
    omega (arith, mul-le-mul_right {m = suc e} {n = c} s h, suc-mul e s, mul_comm s c)

row_before : (e e' s o o' : ℕ) → e < e' → o < s → e * s + o < e' * s + o'
row_before e e' s o o' h g = omega (arith, mul-le-mul_right {m = suc e} {n = e'} s h, suc-mul e s)

-- An element and a part of it can be read off their sum.
row_unique : (e e' s o o' : ℕ) → o < s → o' < s → e * s + o ≡ e' * s + o' → (e ≡ e') × (o ≡ o')
row_unique e e' s o o' h h' q =
    let a = row_before e e' s o o' in
    let b = row_before e' e s o' o in
    elim (ℕ_discrete e e') [
      | yes r ↦ (r, omega (arith, ap (λ u. u * s) r))
      | no d ↦
          let t : (e < e') ⊎ (e' < e) = omega (arith, d) in
          elim t [ inl r ↦ absurd (omega (arith, a r h)) | inr r ↦ absurd (omega (arith, b r h')) ]
    ]

static-start : (l : BindingLayout) → is_dynamic l.type ≡ false → start l ≡ l.desc_idx
unfolding start
static-start l h = rw h refl

static-extent :
    (l : BindingLayout) → is_dynamic l.type ≡ false → extent l ≡ stride_in l * l.desc_count
unfolding extent
static-extent l h = rw h refl

desc_index_lem :
    (l : BindingLayout) (e : ℕ) (s : Subdesc)
    → desc_index l e s ≡ (l.desc_idx + e * stride_in l + subdesc_idx l s) % 2 ^ 32
unfolding desc_index
desc_index_lem l e s = refl

no_wrap : (i m o x c : ℕ) → m + o < x → i + x ≤ c → c < 2 ^ 32 → (i + m + o) % 2 ^ 32 ≡ i + (m + o)
no_wrap i m o x c h g small = omega arith

-- Where a descriptor lies in its binding.
slot-index :
    (l : BindingLayout) (e : ℕ) (s : Subdesc) (c : ℕ)
    → IsSlot l e s
    → start l + extent l ≤ c
    → c < 2 ^ 32
    → (desc_index l e s ≡ start l + (e * stride_in l + subdesc_idx l s))
      × (e * stride_in l + subdesc_idx l s < extent l)
slot-index l e s c (static, he, hs) h small =
    let st = static-start l static in
    let r =
      subst (λ u. e * stride_in l + subdesc_idx l s < u) (sym (static-extent l static))
        (row_below e l.desc_count (stride_in l) (subdesc_idx l s) he hs) in
    let h' = subst (λ u. u + extent l ≤ c) st h in
    (
      desc_index_lem l e s
          ∙ no_wrap l.desc_idx (e * stride_in l) (subdesc_idx l s) (extent l) c r h' small
          ∙ ap (λ u. u + (e * stride_in l + subdesc_idx l s)) (sym st),
      r,
    )

-- Within one binding.
same_binding :
    (l : BindingLayout) (c e f : ℕ) (s t : Subdesc)
    → start l + extent l ≤ c
    → c < 2 ^ 32
    → IsSlot l e s
    → IsSlot l f t
    → desc_index l e s ≡ desc_index l f t
    → (e ≡ f) × (subdesc_idx l s ≡ subdesc_idx l t)
same_binding l c e f s t i small a b q =
    let x = slot-index l e s c a i small in
    let y = slot-index l f t c b i small in
    row_unique e f (stride_in l) (subdesc_idx l s) (subdesc_idx l t) a.2 b.2
      (omega (arith, x.0, y.0, q))

module _ (bs : List Binding) (sorted : IsAscending 0 bs) (small : total bs < 2 ^ 32) where
  -- In a layout of sorted bindings with fewer than 2 ^ 32 descriptors in all, the place of each
  -- part of a descriptor is below the number of descriptors of the set.
  pub desc_index-inside :
      (n e : ℕ) (s : Subdesc)
      → IsSlot ((create_layout bs).bindings n) e s
      → desc_index ((create_layout bs).bindings n) e s < (create_layout bs).desc_count
  desc_index-inside n e s slot =
      let l = (create_layout bs).bindings n in
      let i = create_layout-inside bs n sorted small in
      let (q, r) = slot-index l e s (total bs) slot i small in
      omega (arith, q, r, i, desc_count-create_layout bs sorted small)

  -- In a layout of sorted bindings with fewer than 2 ^ 32 descriptors in all, two parts of
  -- descriptors to which panvk_get_desc_index gives the same place are the same part of the same
  -- element of the same binding.
  pub desc_index-injective :
      (n m e f : ℕ) (s t : Subdesc)
      → let bind = (create_layout bs).bindings in
        IsSlot (bind n) e s
        → IsSlot (bind m) f t
        → desc_index (bind n) e s ≡ desc_index (bind m) f t
        → (n ≡ m) × (e ≡ f) × (subdesc_idx (bind n) s ≡ subdesc_idx (bind m) t)
  desc_index-injective n m e f s t a b q =
      let bind = (create_layout bs).bindings in
      let x = slot-index (bind n) e s (total bs) a (create_layout-inside bs n sorted small) small in
      let y = slot-index (bind m) f t (total bs) b (create_layout-inside bs m sorted small) small in
      elim (ℕ_discrete n m) [
        | yes r ↦
            let g =
              subst
                (λ k.
                  IsSlot (bind k) f t
                  → desc_index (bind n) e s ≡ desc_index (bind k) f t
                  → (e ≡ f) × (subdesc_idx (bind n) s ≡ subdesc_idx (bind k) t))
                r
                (same_binding (bind n) (total bs) e f s t (create_layout-inside bs n sorted small)
                  small a) in
            (r, (g b q).0, (g b q).1)
        | no d ↦
            let z = create_layout-IsApart bs n m sorted small d in
            absurd (omega (arith, x.0, x.1, y.0, y.1, z, q))
      ]
