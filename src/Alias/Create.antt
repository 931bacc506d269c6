-- ===== src/Alias/Create.antt =====
-- An alias mapping never crosses a 4G boundary, and an attempt that fails leaves nothing behind.
use pan_vk_kbase.Prelude.{
  ℕ, zero, suc, ◌+◌, ◌/◌, ◌^◌, ◌<◌, ◌≤◌, ◌≡◌, ◌≢◌, refl, true, ◌==◌, if◌then◌else◌, arith,
}
use pan_vk_kbase.Kernel.{Kernel, Log, Call, Reply, ok, fail, Prot, Offset}
use pan_vk_kbase.Kernel.Ledger.{Kind, held, one, mapping}
use pan_vk_kbase.Alias.{alias_total, in_one_4g, alias_loop, alias_create, alias_destroy}

abbrev IsNonzero : Reply → Type 0
IsNonzero (fail e) = Unit {0}
IsNonzero (ok o) = o.value ≢ 0

-- mmap() places nothing at address 0 unless asked to
abbrev pub MapsNonzero : Kernel → Type 0
MapsNonzero k =
    (l : Log) (len : ℕ) (p : Prot) (off : Offset) → IsNonzero (k l (Call.mmap len p off))

abbrev pub one_nonzero : ℕ → Kind → ℕ → ℕ
one_nonzero va κ x = if va == 0 then 0 else one mapping va κ x

held-alias_loop :
    (n bo_va size nents : ℕ) (k : Kernel) (l : Log) (κ : Kind) (x : ℕ)
    → MapsNonzero k
    → held (alias_loop n bo_va size nents k l).1 κ x
      ≡ held l κ x + one_nonzero (alias_loop n bo_va size nents k l).0 κ x
unfolding alias_loop
held-alias_loop zero bo_va size nents k l κ x nz = omega arith
held-alias_loop (suc n) bo_va size nents k l κ x nz =
    grind (arith, nz, held-alias_loop n bo_va size nents k)

block :
    (va total i : ℕ)
    → in_one_4g va total ≡ true
    → va + total ≤ 2 ^ 64
    → i < total
    → (va + i) / 2 ^ 32 ≡ va / 2 ^ 32
block va total i h fits lt = ground arith

alias_loop-in_one_4g :
    (n bo_va size nents : ℕ) (k : Kernel) (l : Log)
    → let va = (alias_loop n bo_va size nents k l).0 in
      va ≢ 0 → in_one_4g va (alias_total size nents) ≡ true
unfolding alias_loop
alias_loop-in_one_4g zero bo_va size nents k l h = absurd (h refl)
alias_loop-in_one_4g (suc n) bo_va size nents k l h =
    grind (arith, alias_loop-in_one_4g n bo_va size nents k)

-- Each byte of a mapping that kbase_kmod_alias_create returned, which does not run over the end of
-- the 64 bits, has the upper address half of the first byte.
pub alias_create-in_one_4g :
    (bo_va size nents i : ℕ) (k : Kernel) (l : Log)
    → let va = (alias_create bo_va size nents k l).0 in
      va ≢ 0
      → va + alias_total size nents ≤ 2 ^ 64
      → i < alias_total size nents
      → (va + i) / 2 ^ 32 ≡ va / 2 ^ 32
unfolding alias_create
alias_create-in_one_4g bo_va size nents i k l nz fits lt =
    block _ (alias_total size nents) i (alias_loop-in_one_4g 16 bo_va size nents k l nz) fits lt

-- With no mapping placed at 0, kbase_kmod_alias_create holds the mapping that it returns and
-- nothing else, and nothing more than before when it returns 0.
held-alias_create :
    (bo_va size nents : ℕ) (k : Kernel) (l : Log) (κ : Kind) (x : ℕ)
    → MapsNonzero k
    → held (alias_create bo_va size nents k l).1 κ x
      ≡ held l κ x + one_nonzero (alias_create bo_va size nents k l).0 κ x
unfolding alias_create
held-alias_create bo_va size nents k l κ x nz = held-alias_loop 16 bo_va size nents k l κ x nz

-- With no mapping placed at 0, destroying an alias that was created gives everything back.
pub alias_destroy-alias_create :
    (bo_va size nents : ℕ) (k : Kernel) (l : Log) (κ : Kind) (x : ℕ)
    → MapsNonzero k
    → let (va, l') = alias_create bo_va size nents k l in
      va ≢ 0 → held (alias_destroy va size nents k l').1 κ x ≡ held l κ x
unfolding alias_destroy
alias_destroy-alias_create bo_va size nents k l κ x nz h =
    ground (arith, held-alias_create bo_va size nents k l κ x nz)
