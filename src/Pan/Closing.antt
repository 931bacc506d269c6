-- ===== src/Pan/Closing.antt =====
-- pan_kmod_dev_create and the destruction of what it returned: what stays held, and how often the
-- descriptor is closed.
use pan_vk_kbase.Prelude.{
  ℕ, ◌+◌, ◌≡◌, subst, ap, ◌⊎◌, Bool, true, false, Option, none, some, [], ◌∷◌, ◌==◌, if◌then◌else◌,
  arith,
}
use pan_vk_kbase.Kernel.{Kernel, Log, Call}
use pan_vk_kbase.Kernel.Ledger.{Kind, held, one, one_self, memory, group, fd}
use pan_vk_kbase.Pan.Device.{PanDev, pan_dev_create, pan_dev_destroy}
use pan_vk_kbase.Pan.Gpu.{IsFallback, pan_dev_new-IsNew}
use pan_vk_kbase.Pan.Lifetime.{owned_dev, held-pan_dev_new}

-- A device on the caller's descriptor, or one on a descriptor that was opened here, which the
-- driver version 1.0 marks. Either way it reports the fall-back GPU.
abbrev IsCreated : ℕ → Bool → Option PanDev → Type 0
IsCreated n o none = Unit {0}
IsCreated n o (some d) =
    ((d.driver.minor ≡ 20) × (d.fd ≡ n) × (d.owns_fd ≡ o)
      ⊎ (d.driver.minor ≡ 0) × (d.owns_fd ≡ true))
    × IsFallback d.props

-- the descriptor of a device that pan_kmod_dev_create opened
abbrev opened : Option PanDev → Kind → ℕ → ℕ
opened none κ x = 0
opened (some d) κ x = if d.driver.minor == 0 then one fd d.fd κ x else 0

module _ (k : Kernel) where
  pan_dev_create-IsCreated : (n : ℕ) (o : Bool) (l : Log) → IsCreated n o (pan_dev_create n o k l).0
  unfolding pan_dev_create
  pan_dev_create-IsCreated n o l = grind (arith, pan_dev_new-IsNew)

  -- pan_kmod_dev_create
  held-pan_dev_create :
      (n : ℕ) (o : Bool) (l : Log) (κ : Kind) (x : ℕ)
      → held (pan_dev_create n o k l).1 κ x
        ≡ held l κ x
          + owned_dev (pan_dev_create n o k l).0 κ x
          + opened (pan_dev_create n o k l).0 κ x
  unfolding pan_dev_create
  held-pan_dev_create n o l κ x = grind (arith, pan_dev_new-IsNew, held-pan_dev_new, one_self)

abbrev is_close : ℕ → Call → ℕ
is_close n (Call.close m) = if m == n then 1 else 0
is_close n _ = 0

-- how often the log closes the descriptor
abbrev pub closings : ℕ → Log → ℕ
closings n [] = 0
closings n ((c, r) ∷ l) = is_close n c + closings n l

module _ (n : ℕ) (d : PanDev) (k : Kernel) (l : Log)
    (e : (pan_dev_create n false k l).0 ≡ some d) where
  created : IsCreated n false (some d)
  created = subst (IsCreated n false) e (pan_dev_create-IsCreated k n false l)

  -- A device that pan_kmod_dev_create returned reports the GPU id 0xA8070000 and the core mask
  -- 0x3F, whatever the kernel says.
  pan_dev_create-gpu_id : IsFallback d.props
  pan_dev_create-gpu_id = created.1

  -- The destruction of a device of pan_kmod_dev_create closes the device's descriptor once where
  -- it was the caller's, and twice where the device was made on /dev/mali0.
  pan_dev_destroy-closings :
      (m : Log)
      → closings d.fd (pan_dev_destroy d k m).1
        ≡ closings d.fd m + (if d.driver.minor == 0 then 2 else 1)
  unfolding pan_dev_destroy
  pan_dev_destroy-closings m = ground (arith, created)

  pub pan_dev_destroy-leaves_group :
      (x : ℕ)
      → (held (pan_dev_destroy d k (pan_dev_create n false k l).1).1 memory x ≡ held l memory x)
        × (held (pan_dev_destroy d k (pan_dev_create n false k l).1).1 group x
            ≡ held l group x + one group d.group group x)
  unfolding pan_dev_destroy one
  pan_dev_destroy-leaves_group x = ground (
    arith,
    held-pan_dev_create k n false l memory x,
    held-pan_dev_create k n false l group x,
    ap (λ o. owned_dev o memory x) e,
    ap (λ o. owned_dev o group x) e,
    ap (λ o. opened o memory x) e,
    ap (λ o. opened o group x) e,
  )
