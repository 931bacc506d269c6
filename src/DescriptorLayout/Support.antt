-- ===== src/DescriptorLayout/Support.antt =====
-- panvk_per_arch(GetDescriptorSetLayoutSupport), and how its answer agrees with the layout that is
-- then created.
use pan_vk_kbase.Prelude.{
  ℕ, suc, ◌+◌, ◌-◌, ◌*◌, ◌/◌, ◌%◌, ◌^◌, ◌≤◌, ◌<◌, ◌≡◌, inl, inr, refl, sym, ap, ◌∙◌, subst, Bool,
  true, false, Bool-cases, not, ◌&&◌, ◌||◌, min, Option, none, some, List, [], ◌∷◌, map, ltb, ◌==◌,
  if◌then◌else◌, arith,
}
use native.Mathlib.Nat.{ℕ_set, div-add-mod, mod-lt, mul-suc}
use mathlib.Core.List.{Perm, foldr}
use mathlib.Core.List.Perm
use pan_vk_kbase.DescriptorLayout.{
  DescriptorType, Binding, is_dynamic, is_inline_block, is_combined, iub_desc_count, iub_size,
  stride_of, desc_count_of, create_layout,
}
use pan_vk_kbase.DescriptorLayout.Place.{size_of, total, IsAscending, desc_count-create_layout}

-- is_supported_mutable_type
abbrev pub is_supported_mutable_type : DescriptorType → Bool
is_supported_mutable_type DescriptorType.sampled_image = true
is_supported_mutable_type DescriptorType.storage_image = true
is_supported_mutable_type DescriptorType.uniform_texel_buffer = true
is_supported_mutable_type DescriptorType.storage_texel_buffer = true
is_supported_mutable_type DescriptorType.uniform_buffer = true
is_supported_mutable_type DescriptorType.storage_buffer = true
is_supported_mutable_type _ = false

-- is_mutable_type_list_supported
unfoldable pub is_list_supported : List DescriptorType → Bool
is_list_supported [] = true
is_list_supported (t ∷ ts) = is_supported_mutable_type t && is_list_supported ts

abbrev is_mutable : DescriptorType → Bool
is_mutable DescriptorType.mutable = true
is_mutable _ = false

-- a binding with the list of its types, if it is a mutable one
pub record Asked : Type 0 where
  pub binding : Binding
  pub mutable_types : List DescriptorType

-- the local variables of the loop
pub record Counts : Type 0 where
  pub desc_count : ℕ
  pub dyn_buf_count : ℕ
  pub non_variable_count : ℕ
  pub variable_stride : ℕ
  pub variable_type : DescriptorType

abbrev pub no_counts : Counts
no_counts = record {
  desc_count = 0;
  dyn_buf_count = 0;
  non_variable_count = 0;
  variable_stride = 0;
  variable_type = DescriptorType.sampler;
}

-- A variable binding without a count is taken to have four bytes, or one descriptor.
unfoldable pub asked_count : Binding → ℕ
asked_count b =
    if b.variable && (b.count == 0) then (if is_inline_block b.type then 4 else 1) else b.count

unfoldable pub asked_descs : Binding → ℕ
asked_descs b =
    if is_inline_block b.type then iub_desc_count (asked_count b) else stride_of b * asked_count b

-- one round of the loop that is not left early
unfoldable pub count_binding : (dynamic : Bool) → Binding → Counts → Counts
unfolding asked_descs stride_of
count_binding true b c = record c { dyn_buf_count = (c.dyn_buf_count + b.count) % 2 ^ 32 }
count_binding false b c = record c {
  desc_count = (c.desc_count + asked_descs b) % 2 ^ 32;
  non_variable_count =
      if b.variable then c.non_variable_count else (c.non_variable_count + asked_descs b) % 2 ^ 32;
  variable_stride = if b.variable then stride_of b else c.variable_stride;
  variable_type = if b.variable then b.type else c.variable_type;
}

-- by whether the binding is a mutable one with a type that is not supported
unfoldable pub count_if : (refused : Bool) → Binding → Counts → Option Counts
unfolding count_binding
count_if true b c = none
count_if false b c = some (count_binding (is_dynamic b.type) b c)

abbrev pub is_refused : Asked → Bool
unfolding is_list_supported
is_refused a = is_mutable a.binding.type && not (is_list_supported a.mutable_types)

-- the loop; `none` where it returns
unfoldable pub count_all : List Asked → Counts → Option Counts
unfolding count_if is_list_supported
count_all [] c = some c
count_all (a ∷ as') c = elim (count_if (is_refused a) a.binding c) [
  | none ↦ none
  | some c' ↦ count_all as' c'
]

-- PANVK_MAX_DESCS_PER_SET
abbrev pub max_descs_per_set : ℕ
max_descs_per_set = 2 ^ 24

-- MAX_DYNAMIC_BUFFERS
abbrev pub max_dynamic_buffers : ℕ
max_dynamic_buffers = 16 + 8

-- the highest count that the variable binding may have
unfoldable pub max_variable_count : Counts → ℕ
max_variable_count c =
    if c.variable_stride == 0
    then 0
    else if is_inline_block c.variable_type
    then min (iub_size (max_descs_per_set - c.non_variable_count)) (2 ^ 16)
    else (max_descs_per_set - c.non_variable_count) / c.variable_stride

-- `none` where the layout is not supported, or else the highest variable count
unfoldable pub support_of : Option Counts → Option ℕ
unfolding max_variable_count
support_of none = none
support_of (some c) =
    if ltb max_descs_per_set c.desc_count || ltb max_dynamic_buffers c.dyn_buf_count
    then none
    else some (max_variable_count c)

unfoldable pub layout_support : List Asked → Option ℕ
unfolding count_all support_of
layout_support as' = support_of (count_all as' no_counts)

-- what a binding adds to the count
abbrev pub asked_size : Binding → ℕ
asked_size b = if is_dynamic b.type then 0 else asked_descs b

abbrev pub asked_total : List Asked → ℕ
asked_total [] = 0
asked_total (a ∷ as') = asked_size a.binding + asked_total as'

abbrev pub bindings_of : List Asked → List Binding
bindings_of as' = map (λ (a : Asked). a.binding) as'

inline_not_combined : (t : DescriptorType) → is_inline_block t ≡ true → is_combined t ≡ false
inline_not_combined DescriptorType.combined_image_sampler e = sym e
inline_not_combined _ e = refl

-- An inline block takes its descriptors one by one.
inline-stride : (b : Binding) → is_inline_block b.type ≡ true → stride_of b ≡ 1
unfolding stride_of
inline-stride b h = rw (inline_not_combined b.type h) refl

nonempty-asked_count : (b : Binding) → (b.count == 0) ≡ false → asked_count b ≡ b.count
unfolding asked_count
nonempty-asked_count b h = ground (arith, h)

inline-size :
    (b : Binding)
    → is_inline_block b.type ≡ true
    → (b.count == 0) ≡ false
    → stride_of b * desc_count_of b ≡ asked_descs b
unfolding asked_descs
inline-size b i z = rw (i, inline-stride b i, nonempty-asked_count b z) (omega arith)

plain-size :
    (b : Binding)
    → is_inline_block b.type ≡ false
    → (b.count == 0) ≡ false
    → stride_of b * desc_count_of b ≡ asked_descs b
unfolding asked_descs
plain-size b i z = rw (i, nonempty-asked_count b z) refl

same_size : (b : Binding) → (b.count == 0) ≡ false → stride_of b * desc_count_of b ≡ asked_descs b
same_size b z = elim (Bool-cases (is_inline_block b.type)) [
  | inl i ↦ inline-size b i z
  | inr i ↦ plain-size b i z
]

size_of-le-asked_size : (b : Binding) → size_of b ≤ asked_size b
unfolding size_of
size_of-le-asked_size b = elim (Bool-cases (b.count == 0)) [
  | inl z ↦ ground (arith, z)
  | inr z ↦ ground (arith, z, same_size b z)
]

total-foldr : (bs : List Binding) → total bs ≡ foldr (λ b n. size_of b + n) 0 bs
unfolding total
total-foldr [] = refl
total-foldr (b ∷ bs) = ap (λ n. size_of b + n) (total-foldr bs)

total-perm : {bs cs : List Binding} → Perm bs cs → total bs ≡ total cs
total-perm {bs} {cs} p =
    total-foldr bs
    ∙ Perm.foldr-eq ℕ_set (λ b n. size_of b + n) (λ a b n. omega arith) p 0
    ∙ sym (total-foldr cs)

total-le-asked_total : (as' : List Asked) → total (bindings_of as') ≤ asked_total as'
unfolding total
total-le-asked_total [] = omega arith
total-le-asked_total (a ∷ as') =
    omega (arith, size_of-le-asked_size a.binding, total-le-asked_total as')

count_binding-desc_count :
    (dynamic : Bool) (b : Binding) (c : Counts)
    → is_dynamic b.type ≡ dynamic
    → c.desc_count + asked_size b < 2 ^ 32
    → (count_binding dynamic b c).desc_count ≡ c.desc_count + asked_size b
unfolding count_binding
count_binding-desc_count true b c d h = rw d (omega arith)
count_binding-desc_count false b c d h = ground (arith, d, h)

abbrev IsCounted : (n : ℕ) → Option Counts → Type 0
IsCounted n none = Unit {0}
IsCounted n (some c) = c.desc_count ≡ n

-- by whether the binding is refused
count_rest-IsCounted :
    (refused : Bool) (a : Asked) (as' : List Asked) (c : Counts)
    → ((c' : Counts)
        → c'.desc_count + asked_total as' < 2 ^ 32
        → IsCounted (c'.desc_count + asked_total as') (count_all as' c'))
    → c.desc_count + asked_total (a ∷ as') < 2 ^ 32
    → IsCounted
        (c.desc_count + asked_total (a ∷ as'))
        (elim (count_if refused a.binding c) [ none ↦ none | some c' ↦ count_all as' c' ])
unfolding count_if
count_rest-IsCounted true a as' c ih h = tt
count_rest-IsCounted false a as' c ih h =
    let c' = count_binding (is_dynamic a.binding.type) a.binding c in
    let e = count_binding-desc_count (is_dynamic a.binding.type) a.binding c refl (omega arith) in
    subst (λ n. IsCounted n (count_all as' c')) (omega (arith, e)) (ih c' (omega (arith, e)))

count_all-IsCounted :
    (as' : List Asked) (c : Counts)
    → c.desc_count + asked_total as' < 2 ^ 32
    → IsCounted (c.desc_count + asked_total as') (count_all as' c)
unfolding count_all
count_all-IsCounted [] c h = omega arith
count_all-IsCounted (a ∷ as') c h =
    count_rest-IsCounted (is_refused a) a as' c (count_all-IsCounted as') h

support_of-bounded :
    (n : ℕ) (o : Option Counts) (v : ℕ)
    → IsCounted n o
    → support_of o ≡ some v
    → n ≤ max_descs_per_set
unfolding support_of
support_of-bounded n none v h e = ground (arith, e)
support_of-bounded n (some c) v h e = ground (arith, e, h)

-- When GetDescriptorSetLayoutSupport reports bindings as supported whose descriptors number fewer
-- than 2 ^ 32 in all, the layout that is created of the same bindings, sorted by their numbers,
-- has as many descriptors as they take, and no more than PANVK_MAX_DESCS_PER_SET.
pub create_layout-layout_support :
    (as' : List Asked) (bs : List Binding) (v : ℕ)
    → Perm (bindings_of as') bs
    → IsAscending 0 bs
    → asked_total as' < 2 ^ 32
    → layout_support as' ≡ some v
    → ((create_layout bs).desc_count ≡ total bs) × (total bs ≤ max_descs_per_set)
unfolding layout_support
create_layout-layout_support as' bs v p sorted small e =
    let n =
      support_of-bounded (0 + asked_total as') (count_all as' no_counts) v
        (count_all-IsCounted as' no_counts (omega arith)) e in
    let t = total-perm p in
    let le = total-le-asked_total as' in
    (desc_count-create_layout bs sorted (omega (arith, t, le)), omega (arith, t, le, n))

-- how many descriptors a variable binding with this count takes
abbrev pub variable_descs : Counts → (count : ℕ) → ℕ
variable_descs c n =
    if is_inline_block c.variable_type then iub_desc_count n else c.variable_stride * n

module _ (m nv s : ℕ) (h : 0 < s) (g : nv ≤ m) where
  quotient-fits : nv + s * ((m - nv) / s) ≤ m
  quotient-fits = omega (arith, div-add-mod (m - nv) s)

  quotient-highest : m < nv + s * suc ((m - nv) / s)
  quotient-highest =
      let q = (m - nv) / s in omega (arith, div-add-mod (m - nv) s, mod-lt (m - nv) h, mul-suc s q)

inline-fits :
    (m nv : ℕ) → nv < m → m ≤ 2 ^ 24 → nv + iub_desc_count (min (iub_size (m - nv)) (2 ^ 16)) ≤ m
inline-fits m nv h g = omega arith

-- Where there is a binding with a variable count and the others take fewer descriptors than
-- PANVK_MAX_DESCS_PER_SET, the maximum count that is reported for it fits: all together take no
-- more than that.
pub max_variable_count-fits :
    (c : Counts)
    → 0 < c.variable_stride
    → c.non_variable_count < max_descs_per_set
    → c.non_variable_count + variable_descs c (max_variable_count c) ≤ max_descs_per_set
unfolding max_variable_count
max_variable_count-fits c h g =
    let z : (c.variable_stride == 0) ≡ false = ground (arith, h) in
    elim (Bool-cases (is_inline_block c.variable_type)) [
      | inl i ↦ rw (z, i) (inline-fits max_descs_per_set c.non_variable_count g (omega arith))
      | inr i ↦
          rw (z, i)
            (quotient-fits max_descs_per_set c.non_variable_count c.variable_stride h (omega arith))
    ]

-- One more than the maximum count that is reported does not fit, but in an inline block.
max_variable_count-highest :
    (c : Counts)
    → 0 < c.variable_stride
    → c.non_variable_count ≤ max_descs_per_set
    → is_inline_block c.variable_type ≡ false
    → max_descs_per_set < c.non_variable_count + variable_descs c (suc (max_variable_count c))
unfolding max_variable_count
max_variable_count-highest c h g i =
    let z : (c.variable_stride == 0) ≡ false = ground (arith, h) in
    rw (z, i) (quotient-highest max_descs_per_set c.non_variable_count c.variable_stride h g)
