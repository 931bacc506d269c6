-- ===== src/Pan/Gpu.antt =====
-- The GPU that a device of pan_kmod.c's own backend reports, and which descriptors its destruction
-- closes.
use pan_vk_kbase.Prelude.{
  ℕ, zero, suc, ◌≡◌, refl, Bool, false, Option, none, some, List, [], ◌∷◌, ◌==◌, length, arith,
}
use pan_vk_kbase.Kernel.{Kernel, Log, Call, M, call, ok, fail}
use pan_vk_kbase.Device.{Version}
use pan_vk_kbase.Pan.Device.{
  give_up, pan_group_req, PanDev, PanProps, query_gpu_info, info_of, pan_query_csif,
  pan_query_props, dev_grouped, dev_flagged, pan_dev_new, set_prop, props_loop, props_of, props_or,
  first_props,
}

-- the id and the core mask that the backend falls back to
abbrev pub IsFallback : PanProps → Type 0
IsFallback p = (p.gpu_id ≡ 0xA8070000) × (p.shader_present ≡ 0x3F)

set_prop-IsFallback : (t v : ℕ) (p : PanProps) → IsFallback p → IsFallback (set_prop t v p)
unfolding set_prop
set_prop-IsFallback t v p h = ground arith

props_loop-IsFallback :
    (n : ℕ) (rest : List ℕ) (p q : PanProps)
    → IsFallback p
    → IsFallback q
    → IsFallback (props_or q (props_loop n rest p))
unfolding props_loop
props_loop-IsFallback zero rest p q h i = i
props_loop-IsFallback (suc n) [] p q h i = h
props_loop-IsFallback (suc n) (b ∷ bs) p q h i =
    props_loop-IsFallback n _ _ q (set_prop-IsFallback _ _ p h) i

suc_not_zero : (n : ℕ) → (suc n == 0) ≡ false
suc_not_zero n = ground arith

first_props-info_of : (bytes : List ℕ) → IsFallback (first_props (info_of bytes))
first_props-info_of [] = (refl, refl)
first_props-info_of (b ∷ bs) = rw (suc_not_zero (length bs)) (refl, refl)

-- a device of these arguments, which reports the fall-back
abbrev pub IsNew : ℕ → Bool → Version → Option PanDev → Type 0
IsNew n o v none = Unit {0}
IsNew n o v (some d) = (d.fd ≡ n) × (d.owns_fd ≡ o) × (d.driver ≡ v) × IsFallback d.props

module _ (k : Kernel) where
  first_props-query_gpu_info : (l : Log) → IsFallback (first_props (query_gpu_info k l).0)
  unfolding query_gpu_info
  first_props-query_gpu_info l = grind (arith, first_props-info_of)

  pan_query_props-IsFallback :
      (p : PanProps) (l : Log) → IsFallback p → IsFallback (pan_query_props p k l).0
  unfolding pan_query_props props_of
  pan_query_props-IsFallback p l h = grind (arith, props_loop-IsFallback)

  dev_grouped-IsNew :
      (self n : ℕ) (o : Bool) (v : Version) (c g : ℕ) (l : Log)
      → IsNew n o v (dev_grouped self n o v c g k l).0
  unfolding dev_grouped
  dev_grouped-IsNew self n o v c g l =
      let l1 = (pan_query_csif k l).1 in
      let i = query_gpu_info k l1 in
      (refl, refl, refl, pan_query_props-IsFallback _ i.1 (first_props-query_gpu_info l1))

  dev_flagged-IsNew :
      (self n : ℕ) (o : Bool) (v : Version) (l : Log) → IsNew n o v (dev_flagged self n o v k l).0
  unfolding dev_flagged
  dev_flagged-IsNew self n o v l =
      let c = call Call.context_id k l in
      let g = call (Call.group_create_1_6 pan_group_req) k c.1 in
      let ctx = elim c.0 as (λ x. ℕ) [ fail e ↦ 0 | ok i ↦ i.value ] in
      elim g.0
        as (λ r.
          IsNew n o v
            ((elim r as (λ x. M (Option PanDev)) [
              | fail e ↦ give_up self
              | ok p ↦ dev_grouped self n o v ctx p.value
            ])
              k g.1).0) [ fail e ↦ tt | ok p ↦ dev_grouped-IsNew self n o v ctx p.value g.1 ]

  pub pan_dev_new-IsNew :
      (n : ℕ) (o : Bool) (v : Version) (l : Log) → IsNew n o v (pan_dev_new n o v k l).0
  unfolding pan_dev_new
  pan_dev_new-IsNew n o v l = grind (arith, dev_flagged-IsNew)
