-- ===== src/Pan/Lifetime.antt =====
-- What a device of pan_kmod.c's own backend holds, what is left of it once it is destroyed, and
-- which GPU it reports.
use pan_vk_kbase.Prelude.{ℕ, ◌+◌, ◌-◌, ◌≤◌, ◌≡◌, refl, Bool, Option, none, some, arith}
use pan_vk_kbase.Kernel.{Kernel, Log, Call, Reply, ok, fail, call}
use pan_vk_kbase.Kernel.Ledger.{Kind, held, one, one_self, memory, group}
use pan_vk_kbase.Device.{Version}
use pan_vk_kbase.Pan.Device.{
  PanDev, PanProps, query_gpu_info, pan_query_csif, pan_query_props, dev_grouped, dev_flagged,
  pan_dev_new, pan_group_req,
}

abbrev pub owned_dev : Option PanDev → Kind → ℕ → ℕ
owned_dev none κ x = 0
owned_dev (some d) κ x = one memory d.self κ x + one group d.group κ x

abbrev value_or : Reply → ℕ
value_or (fail e) = 0
value_or (ok o) = o.value

module _ (k : Kernel) where
  held-query_gpu_info : (l : Log) (κ : Kind) (x : ℕ) → held (query_gpu_info k l).1 κ x ≡ held l κ x
  unfolding query_gpu_info
  held-query_gpu_info l κ x = ground arith

  held-pan_query_props :
      (p : PanProps) (l : Log) (κ : Kind) (x : ℕ) → held (pan_query_props p k l).1 κ x ≡ held l κ x
  unfolding pan_query_props
  held-pan_query_props p l κ x = ground arith

  held-pan_query_csif : (l : Log) (κ : Kind) (x : ℕ) → held (pan_query_csif k l).1 κ x ≡ held l κ x
  unfolding pan_query_csif
  held-pan_query_csif l κ x = ground arith

  held-dev_grouped :
      (self n : ℕ) (o : Bool) (v : Version) (c g : ℕ) (l : Log) (κ : Kind) (x : ℕ)
      → held (dev_grouped self n o v c g k l).1 κ x ≡ held l κ x
  unfolding dev_grouped
  held-dev_grouped self n o v c g l κ x =
      let l1 = (pan_query_csif k l).1 in
      let l2 = (query_gpu_info k l1).1 in
      ground (
        arith,
        held-pan_query_csif l κ x,
        held-query_gpu_info l1 κ x,
        held-pan_query_props _ l2 κ x,
      )

  owned_dev-dev_grouped :
      (self n : ℕ) (o : Bool) (v : Version) (c g : ℕ) (l : Log) (κ : Kind) (x : ℕ)
      → owned_dev (dev_grouped self n o v c g k l).0 κ x ≡ one memory self κ x + one group g κ x
  unfolding dev_grouped
  owned_dev-dev_grouped self n o v c g l κ x = refl

  held-dev_flagged :
      (self n : ℕ) (o : Bool) (v : Version) (l : Log) (κ : Kind) (x : ℕ)
      → one memory self κ x ≤ held l κ x
      → held (dev_flagged self n o v k l).1 κ x
        ≡ held l κ x - one memory self κ x + owned_dev (dev_flagged self n o v k l).0 κ x
  unfolding dev_flagged
  held-dev_flagged self n o v l κ x h =
      let c = call Call.context_id k l in
      let g = call (Call.group_create_1_6 pan_group_req) k c.1 in
      let ctx = elim c.0 as (λ r. ℕ) [ fail e ↦ 0 | ok i ↦ i.value ] in
      ground (
        arith,
        held-dev_grouped self n o v ctx (value_or g.0) g.1 κ x,
        owned_dev-dev_grouped self n o v ctx (value_or g.0) g.1 κ x,
      )

  -- kbase_dev_create holds on success the object and its queue group, and nothing more than before
  -- when it returns NULL.
  pub held-pan_dev_new :
      (n : ℕ) (o : Bool) (v : Version) (l : Log) (κ : Kind) (x : ℕ)
      → held (pan_dev_new n o v k l).1 κ x ≡ held l κ x + owned_dev (pan_dev_new n o v k l).0 κ x
  unfolding pan_dev_new
  held-pan_dev_new n o v l κ x = grind (arith, held-dev_flagged, one_self)
