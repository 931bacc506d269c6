-- ===== src/Bo/Owned.antt =====
-- What a buffer object holds, and its release.
use pan_vk_kbase.Prelude.{ℕ, ◌+◌, ◌-◌, ◌≡◌, ◌&&◌, not, Option, none, some, if◌then◌else◌, arith}
use pan_vk_kbase.Kernel.{Log, Kernel}
use pan_vk_kbase.Kernel.Ledger.{Kind, one, held, memory, fd, region, mapping}
use pan_vk_kbase.Device.{Bo}
use pan_vk_kbase.Bo.{eq_opt, bo_free}

abbrev pub one_opt : Kind → Option ℕ → Kind → ℕ → ℕ
one_opt a none κ x = 0
one_opt a (some y) κ x = one a y κ x

-- How often the resource is among those of the object: its memory, its mappings, a zone region
-- and the dma-buf.
abbrev pub owned : Bo → Kind → ℕ → ℕ
owned b κ x =
    (if b.owns_cpu_mapping && not (eq_opt b.cpu_ptr b.gpu_mapping)
      then one_opt mapping b.cpu_ptr κ x
      else 0)
    + one_opt mapping b.gpu_mapping κ x
    + (if b.same_va then 0 else one region b.gpu_va κ x)
    + one_opt fd b.dmabuf_fd κ x
    + one memory b.self κ x

abbrev pub owned_opt : Option Bo → Kind → ℕ → ℕ
owned_opt none κ x = 0
owned_opt (some b) κ x = owned b κ x

-- kbase_kmod_bo_free gives back exactly what the object owns, and nothing else.
pub held-bo_free :
    (b : Bo) (k : Kernel) (l : Log) (κ : Kind) (x : ℕ)
    → held (bo_free b k l).1 κ x ≡ held l κ x - owned b κ x
unfolding bo_free
held-bo_free b k l κ x = ground arith
