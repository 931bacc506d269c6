-- ===== src/Dev/Held.antt =====
-- What a device holds, from its creation to its destruction.
use pan_vk_kbase.Prelude.{
  ℕ, ◌+◌, ◌-◌, ◌≤◌, ◌≡◌, ◌≢◌, refl, Bool, true, false, ◌||◌, not, Option, none, some, List, arith,
  ◌∷◌, ap, inl, ◌⊎◌,
}
use pan_vk_kbase.Kernel.{Kernel, Log, Call, Reply, ok, fail}
use pan_vk_kbase.Kernel.Ledger.{Kind, held, one, memory, fd, mapping, kcpu}
use pan_vk_kbase.Device.{Device, Version, Kcpu}
use pan_vk_kbase.GpuProps.{Keys}
use pan_vk_kbase.GpuProps.Query.{held-get_gpuprops}
use pan_vk_kbase.Csf.Info.{held-query_csif_info}
use pan_vk_kbase.Bo.Owned.{one_opt}
use pan_vk_kbase.Dev.{
  Env, dev_finish, dev_csf, dev_tracked, tracking_call, dev_mapped, dev_shaken, dev_create,
  dev_destroy, kcpu_close, dev_release, handshake,
}

abbrev pub owned_kcpu : Kcpu → Kind → ℕ → ℕ
owned_kcpu q κ x =
    one_opt fd q.fence_fd κ x + (elim q.valid [ true ↦ one kcpu q.id κ x | false ↦ 0 ])

-- the object, its two pages, the dma-heap and the KCPU queue
abbrev pub owned : Device → Kind → ℕ → ℕ
owned d κ x =
    one memory d.self κ x
    + one_opt mapping d.tracking_page κ x
    + one_opt mapping d.user_reg_page κ x
    + one_opt fd d.dma_heap_fd κ x
    + owned_kcpu d.kcpu κ x

abbrev pub owned_opt : Option Device → Kind → ℕ → ℕ
owned_opt none κ x = 0
owned_opt (some d) κ x = owned d κ x

held-kcpu_close :
    (q : Kcpu) (k : Kernel) (l : Log) (κ : Kind) (x : ℕ)
    → held (kcpu_close q k l).1 κ x ≡ held l κ x - owned_kcpu q κ x
unfolding kcpu_close
held-kcpu_close q k l κ x = ground arith

abbrev pub owned_fd : Device → Kind → ℕ → ℕ
owned_fd d κ x = elim d.owns_fd [ true ↦ one fd d.fd κ x | false ↦ 0 ]

held-dev_release :
    (d : Device) (k : Kernel) (l : Log) (κ : Kind) (x : ℕ)
    → held (dev_release d k l).1 κ x
      ≡ held l κ x
        - (one memory d.self κ x
            + one_opt mapping d.tracking_page κ x
            + one_opt mapping d.user_reg_page κ x
            + one_opt fd d.dma_heap_fd κ x
            + owned_fd d κ x)
unfolding dev_release
held-dev_release d k l κ x = ground arith

-- `dev_destroy` gives back exactly what the device owns, the descriptor too if that is its own, and
-- leaves the lock free.
pub held-dev_destroy :
    (d : Device) (k : Kernel) (l : Log) (κ : Kind) (x : ℕ)
    → held (dev_destroy d k l).1 κ x ≡ held l κ x - owned d κ x - owned_fd d κ x
unfolding dev_destroy
held-dev_destroy d k l κ x =
    omega
      (arith, held-kcpu_close d.kcpu k l κ x, held-dev_release d k (kcpu_close d.kcpu k l).1 κ x)

-- the reply to the CSF handshake
abbrev pub says_csf : Reply → Bool
says_csf (ok o) = true
says_csf (fail e) = false

abbrev is_mapping : Kind → Bool
is_mapping mapping = true
is_mapping _ = false

is_mapping_of_ne : (κ : Kind) → κ ≢ mapping → is_mapping κ ≡ false
is_mapping_of_ne mapping h = absurd (h refl)
is_mapping_of_ne _ h = refl

one_mapping_other : (p : ℕ) (κ : Kind) (x : ℕ) → is_mapping κ ≡ false → one mapping p κ x ≡ 0
unfolding one
one_mapping_other p κ x h = ground arith

-- whether the page of the USER register can be lost: see `Leak`
abbrev lost : Option Device → Option ℕ → Kind → ℕ → ℕ
lost none page κ x = one_opt mapping page κ x
lost (some d) page κ x = 0

module _ (env : Env) (keys : Keys) (k : Kernel) (κ : Kind) (x : ℕ) where
  held-dev_finish :
      (d : Device) (buf : ℕ) (bytes : List ℕ) (l : Log)
      → d.kcpu.valid ≡ false
      → d.kcpu.fence_fd ≡ none
      → d.dma_heap_fd ≡ none
      → one memory buf κ x + owned d κ x ≤ held l κ x
      → held (dev_finish env keys d buf bytes k l).1 κ x + (one memory buf κ x + owned d κ x)
        ≡ held l κ x
          + owned_opt (dev_finish env keys d buf bytes k l).0 κ x
          + lost (dev_finish env keys d buf bytes k l).0 d.user_reg_page κ x
  unfolding dev_finish
  held-dev_finish d buf bytes l v f h p = ground arith

  -- A run of creation is exact unless it lost the page: on failure, on a CSF device, in a mapping.
  abbrev is_exact : (csf : Bool) → Option Device → Bool
  is_exact csf none = not csf || not (is_mapping κ)
  is_exact csf (some d) = true

  held-dev_csf :
      (csf : Bool) (d : Device) (buf : ℕ) (bytes : List ℕ) (l : Log)
      → d.kcpu.valid ≡ false
      → d.kcpu.fence_fd ≡ none
      → d.dma_heap_fd ≡ none
      → d.user_reg_page ≡ none
      → one memory buf κ x + owned d κ x ≤ held l κ x
      → is_exact csf (dev_csf csf env keys d buf bytes k l).0 ≡ true
      → held (dev_csf csf env keys d buf bytes k l).1 κ x + (one memory buf κ x + owned d κ x)
        ≡ held l κ x + owned_opt (dev_csf csf env keys d buf bytes k l).0 κ x
  unfolding dev_csf
  held-dev_csf false d buf bytes l v f h u p e = ground (arith, held-dev_finish d buf bytes l)
  held-dev_csf true d buf bytes l v f h u p e =
      grind (arith, held-query_csif_info k l κ x, held-dev_finish, one_mapping_other)

  held-dev_tracked :
      (n : ℕ) (owns sync csf : Bool) (ver : Version) (tracking : ℕ) (l : Log)
      → one mapping tracking κ x ≤ held l κ x
      → is_exact csf (dev_tracked env keys n owns sync csf ver tracking k l).0 ≡ true
      → held (dev_tracked env keys n owns sync csf ver tracking k l).1 κ x
          + one mapping tracking κ x
        ≡ held l κ x + owned_opt (dev_tracked env keys n owns sync csf ver tracking k l).0 κ x
  unfolding dev_tracked
  held-dev_tracked n owns sync csf ver tracking l p e =
      grind (arith, held-get_gpuprops k l κ x, held-dev_csf)

  -- `l` is the log before the reply to the mapping
  held-dev_mapped :
      (r : Reply) (n : ℕ) (owns sync csf : Bool) (ver : Version) (l : Log)
      → let l' = (tracking_call, r) ∷ l in
        is_exact csf (dev_mapped r env keys n owns sync csf ver k l').0 ≡ true
        → held (dev_mapped r env keys n owns sync csf ver k l').1 κ x
          ≡ held l κ x + owned_opt (dev_mapped r env keys n owns sync csf ver k l').0 κ x
  unfolding dev_mapped
  held-dev_mapped (fail e) n owns sync csf ver l h = omega arith
  held-dev_mapped (ok o) n owns sync csf ver l h = omega (
    arith,
    held-dev_tracked n owns sync csf ver o.value ((tracking_call, ok o) ∷ l) (omega arith) h,
  )

  -- the flavour that the handshake found
  abbrev flavour : Option (Bool × Version) → Bool
  flavour none = false
  flavour (some (csf, ver)) = csf

  held-dev_shaken :
      (h : Option (Bool × Version)) (n : ℕ) (owns sync : Bool) (l : Log)
      → is_exact (flavour h) (dev_shaken h env keys n owns sync k l).0 ≡ true
      → held (dev_shaken h env keys n owns sync k l).1 κ x
        ≡ held l κ x + owned_opt (dev_shaken h env keys n owns sync k l).0 κ x
  unfolding dev_shaken
  held-dev_shaken none n owns sync l e = omega arith
  held-dev_shaken (some (csf, ver)) n owns sync l e =
      let l' = (Call.set_flags 0, k l (Call.set_flags 0)) ∷ l in
      ground (arith, held-dev_mapped (k l' tracking_call) n owns sync csf ver l')

  held-handshake : (l : Log) → held (handshake k l).1 κ x ≡ held l κ x
  unfolding handshake
  held-handshake l = ground arith

  handshake-says_csf :
      (l : Log) → flavour (handshake k l).0 ≡ true → says_csf (k l Call.version_check_csf) ≡ true
  unfolding handshake
  handshake-says_csf l e = ground arith

  held-dev_create_exact :
      (n : ℕ) (owns sync : Bool) (l : Log)
      → is_exact (says_csf (k l Call.version_check_csf)) (dev_create env keys n owns sync k l).0
        ≡ true
      → held (dev_create env keys n owns sync k l).1 κ x
        ≡ held l κ x + owned_opt (dev_create env keys n owns sync k l).0 κ x
  unfolding dev_create
  held-dev_create_exact n owns sync l e = ground (
    arith,
    held-handshake l,
    handshake-says_csf l,
    held-dev_shaken (handshake k l).0 n owns sync (handshake k l).1,
  )

-- kbase_kmod_dev_create holds on success exactly what the device owns, and when it returns NULL
-- nothing more than before, except that on a CSF device a mapping may be.
pub held-dev_create :
    (env : Env) (keys : Keys) (n : ℕ) (owns sync : Bool) (k : Kernel) (l : Log) (κ : Kind) (x : ℕ)
    → let (made, l') = dev_create env keys n owns sync k l in
      (made ≢ none) ⊎ ((κ ≢ mapping) ⊎ (says_csf (k l Call.version_check_csf) ≡ false))
      → held l' κ x ≡ held l κ x + owned_opt made κ x
held-dev_create env keys n owns sync k l κ x h =
    ground (arith, held-dev_create_exact env keys k κ x n owns sync l, is_mapping_of_ne κ)

-- A device that kbase_kmod_dev_create returned, once destroyed, leaves the process holding what it
-- held before, less the descriptor if that was handed over: no page, heap, kernel queue or memory
-- is lost.
pub dev_destroy-dev_create :
    (env : Env) (keys : Keys) (n : ℕ) (owns sync : Bool) (k : Kernel) (l : Log) (d : Device)
    → (dev_create env keys n owns sync k l).0 ≡ some d
    → (κ : Kind) (x : ℕ)
    → held (dev_destroy d k (dev_create env keys n owns sync k l).1).1 κ x
      ≡ held l κ x - owned_fd d κ x
dev_destroy-dev_create env keys n owns sync k l d e κ x =
    let made : (dev_create env keys n owns sync k l).0 ≢ none = ground arith in
    omega (
      arith,
      held-dev_destroy d k (dev_create env keys n owns sync k l).1 κ x,
      held-dev_create env keys n owns sync k l κ x (inl made),
      ap (λ r. owned_opt r κ x) e,
    )
