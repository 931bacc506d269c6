-- ===== src/DescriptorLayout/Place.antt =====
-- Where the descriptors of a layout lie: each inside of the set, and no two at one place.
use pan_vk_kbase.Prelude.{
  ℕ, suc, ◌+◌, ◌*◌, ◌%◌, ◌^◌, ◌≤◌, ◌<◌, ◌≡◌, ◌≢◌, ◌⊎◌, inl, inr, refl, sym, ap, ◌∙◌, subst, Bool,
  true, false, ◌||◌, List, [], ◌∷◌, ◌==◌, if◌then◌else◌, arith,
}
use native.Mathlib.Decide.{ℕ_discrete}
use pan_vk_kbase.DescriptorLayout.{
  Binding, BindingLayout, no_binding, Layout, is_dynamic, stride_in, stride_of, desc_count_of,
  layout_of, set_binding, place_binding, add_binding, add_bindings, create_layout, num_bindings,
  empty_layout,
}

-- how many descriptors of the set a binding has
unfoldable pub extent : BindingLayout → ℕ
extent l = if is_dynamic l.type then 0 else stride_in l * l.desc_count

-- where they start
unfoldable pub start : BindingLayout → ℕ
start l = if is_dynamic l.type then 0 else l.desc_idx

unfoldable pub size_of : Binding → ℕ
unfolding stride_of
size_of b = if is_dynamic b.type || (b.count == 0) then 0 else stride_of b * desc_count_of b

-- how many descriptors the bindings have, without a width
unfoldable pub total : List Binding → ℕ
unfolding size_of
total [] = 0
total (b ∷ bs) = size_of b + total bs

-- The numbers ascend, as vk_create_sorted_bindings leaves distinct ones.
abbrev pub IsAscending : (from : ℕ) → List Binding → Type 0
IsAscending from [] = Unit {0}
IsAscending from (b ∷ bs) = (from ≤ b.binding) × IsAscending (suc b.binding) bs

abbrev pub IsApart : BindingLayout → BindingLayout → Type 0
IsApart x y = (start x + extent x ≤ start y) ⊎ (start y + extent y ≤ start x)

-- From a number on there is no binding yet; each binding lies below `c`, and apart from any other.
record IsPlaced (from c : ℕ) (bs : ℕ → BindingLayout) : Type 0 where
  free : (n : ℕ) → from ≤ n → bs n ≡ no_binding
  inside : (n : ℕ) → start (bs n) + extent (bs n) ≤ c
  apart : (n m : ℕ) → n ≢ m → IsApart (bs n) (bs m)

set_binding-same : (n : ℕ) (x : BindingLayout) (bs : ℕ → BindingLayout) → set_binding n x bs n ≡ x
set_binding-same n x bs = ground arith

set_binding-other :
    (n : ℕ) (x : BindingLayout) (bs : ℕ → BindingLayout) (m : ℕ)
    → m ≢ n
    → set_binding n x bs m ≡ bs m
set_binding-other n x bs m h = ground (arith, h)

-- what a number stands for afterwards
set_binding-cases :
    (n : ℕ) (x : BindingLayout) (bs : ℕ → BindingLayout) (m : ℕ)
    → (m ≡ n) × (set_binding n x bs m ≡ x) ⊎ (m ≢ n) × (set_binding n x bs m ≡ bs m)
set_binding-cases n x bs m = elim (ℕ_discrete m n) [
  | yes e ↦ inl (e, ap (set_binding n x bs) e ∙ set_binding-same n x bs)
  | no d ↦ inr (d, set_binding-other n x bs m d)
]

-- a binding at a new number, behind all others or without a place
module _ (from n c c' : ℕ) (x : BindingLayout) (bs : ℕ → BindingLayout) (p : IsPlaced from c bs)
    (above : from ≤ n) (grown : c ≤ c') (fits : start x + extent x ≤ c')
    (new : (c ≤ start x) ⊎ (start x + extent x ≡ 0)) where
  new-IsApart : (m : ℕ) → IsApart (bs m) x
  new-IsApart m = let i = p.inside m in omega arith

  set_binding-IsPlaced : IsPlaced (suc n) c' (set_binding n x bs)
  set_binding-IsPlaced = record {
    free = λ m g.
        set_binding-other n x bs m (λ e. omega (arith, subst (λ u. suc n ≤ u) e g))
        ∙ p.free m (omega arith);
    inside = λ m. elim (set_binding-cases n x bs m) [
      | inl (e, s) ↦ rw s fits
      | inr (d, s) ↦ rw s (let i = p.inside m in omega arith)
    ];
    apart = λ m k d. elim (set_binding-cases n x bs m) [
      | inl (e, s) ↦ elim (set_binding-cases n x bs k) [
        | inl (f, u) ↦ absurd (d (e ∙ sym f))
        | inr (f, u) ↦ rw (s, u) (let a = new-IsApart k in omega arith)
      ]
      | inr (e, s) ↦ elim (set_binding-cases n x bs k) [
        | inl (f, u) ↦ rw (s, u) (new-IsApart m)
        | inr (f, u) ↦ rw (s, u) (p.apart m k d)
      ]
    ];
  }

place-static :
    (idx : ℕ) (b : Binding)
    → is_dynamic b.type ≡ false
    → (start (layout_of idx b) ≡ idx) × (extent (layout_of idx b) ≡ stride_of b * desc_count_of b)
unfolding start extent layout_of stride_of
place-static idx b h = (rw h refl, rw h refl)

place-dynamic :
    (idx : ℕ) (b : Binding)
    → is_dynamic b.type ≡ true
    → start (layout_of idx b) + extent (layout_of idx b) ≡ 0
unfolding start extent layout_of
place-dynamic idx b h = rw h refl

-- the layout after one more binding
abbrev IsGrown : Binding → (before after : Layout) → Type 0
IsGrown b l l' =
    IsPlaced (suc b.binding) l'.desc_count l'.bindings × (l'.desc_count ≡ l.desc_count + size_of b)

size_of-static :
    (b : Binding)
    → (b.count == 0) ≡ false
    → is_dynamic b.type ≡ false
    → size_of b ≡ stride_of b * desc_count_of b
unfolding size_of
size_of-static b nz s = rw (nz, s) refl

size_of-dynamic : (b : Binding) → is_dynamic b.type ≡ true → size_of b ≡ 0
unfolding size_of
size_of-dynamic b d = rw d refl

size_of-empty : (b : Binding) → (b.count == 0) ≡ true → size_of b ≡ 0
unfolding size_of
size_of-empty b z = ground (arith, z)

place_binding-IsGrown :
    (dynamic : Bool) (from : ℕ) (b : Binding) (l : Layout)
    → is_dynamic b.type ≡ dynamic
    → (b.count == 0) ≡ false
    → IsPlaced from l.desc_count l.bindings
    → from ≤ b.binding
    → l.desc_count + size_of b < 2 ^ 32
    → IsGrown b l (place_binding dynamic b l)
unfolding place_binding
place_binding-IsGrown true from b l d nz p h small =
    let z = place-dynamic l.dyn_buf_count b d in
    (
      set_binding-IsPlaced from b.binding l.desc_count l.desc_count (layout_of l.dyn_buf_count b)
          l.bindings p h (omega arith) (omega arith) (inr z),
      omega (arith, size_of-dynamic b d),
    )
place_binding-IsGrown false from b l d nz p h small =
    let s = place-static l.desc_count b d in
    let e = size_of-static b nz d in
    let c = (l.desc_count + stride_of b * desc_count_of b) % 2 ^ 32 in
    let ec : c ≡ l.desc_count + size_of b = omega arith in
    (
      set_binding-IsPlaced from b.binding l.desc_count c (layout_of l.desc_count b) l.bindings p h
          (omega arith) (omega arith) (inl (omega arith)),
      ec,
    )

add_binding-IsGrown :
    (is_empty : Bool) (from : ℕ) (b : Binding) (l : Layout)
    → (b.count == 0) ≡ is_empty
    → IsPlaced from l.desc_count l.bindings
    → from ≤ b.binding
    → l.desc_count + size_of b < 2 ^ 32
    → IsGrown b l (add_binding is_empty b l)
unfolding add_binding
add_binding-IsGrown true from b l z p h small = (
  record { free = λ n g. p.free n (omega arith); inside = p.inside; apart = p.apart },
  omega (arith, size_of-empty b z),
)
add_binding-IsGrown false from b l nz p h small =
    place_binding-IsGrown (is_dynamic b.type) from b l refl nz p h small

add_bindings-IsPlaced :
    (bs : List Binding) (from : ℕ) (l : Layout)
    → IsPlaced from l.desc_count l.bindings
    → IsAscending from bs
    → l.desc_count + total bs < 2 ^ 32
    → let l' = add_bindings bs l in
      (to : ℕ) × IsPlaced to l'.desc_count l'.bindings × (l'.desc_count ≡ l.desc_count + total bs)
unfolding add_bindings total
add_bindings-IsPlaced [] from l p a small = (from, p, omega arith)
add_bindings-IsPlaced (b ∷ bs) from l p a small =
    let l1 = add_binding (b.count == 0) b l in
    let g = add_binding-IsGrown (b.count == 0) from b l refl p a.0 (omega arith) in
    let (to, q, e) = add_bindings-IsPlaced bs (suc b.binding) l1 g.0 a.1 (omega (arith, g.1)) in
    (to, q, omega (arith, g.1))

no_bindings-IsPlaced : IsPlaced 0 0 (λ n. no_binding)
unfolding start extent
no_bindings-IsPlaced = record {
  free = λ n h. refl;
  inside = λ n. omega arith;
  apart = λ n m d. omega arith;
}

created :
    (bs : List Binding)
    → IsAscending 0 bs
    → total bs < 2 ^ 32
    → let l = create_layout bs in
      (to : ℕ) × IsPlaced to l.desc_count l.bindings × (l.desc_count ≡ 0 + total bs)
unfolding create_layout
created bs a small =
    add_bindings-IsPlaced bs 0 (empty_layout (num_bindings bs)) no_bindings-IsPlaced a (omega arith)

-- A layout has as many descriptors as its bindings have together.
pub desc_count-create_layout :
    (bs : List Binding)
    → IsAscending 0 bs
    → total bs < 2 ^ 32
    → (create_layout bs).desc_count ≡ total bs
desc_count-create_layout bs a small = let (to, p, e) = created bs a small in omega arith

pub create_layout-inside :
    (bs : List Binding) (n : ℕ)
    → IsAscending 0 bs
    → total bs < 2 ^ 32
    → let l = create_layout bs in start (l.bindings n) + extent (l.bindings n) ≤ total bs
create_layout-inside bs n a small =
    let (to, p, e) = created bs a small in let i = p.inside n in omega arith

pub create_layout-IsApart :
    (bs : List Binding) (n m : ℕ)
    → IsAscending 0 bs
    → total bs < 2 ^ 32
    → n ≢ m
    → let l = create_layout bs in IsApart (l.bindings n) (l.bindings m)
create_layout-IsApart bs n m a small d = let (to, p, e) = created bs a small in p.apart n m d
