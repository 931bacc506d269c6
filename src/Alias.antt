-- ===== src/Alias.antt =====
-- Alias mappings of kbase_kmod.c: one object mapped several times back to back, at an address that
-- the kernel picks and that crosses no 4G boundary.
pub mod Create
pub mod Tests
use pan_vk_kbase.Prelude.{
  ℕ, zero, suc, ◌+◌, ◌-◌, ◌*◌, ◌/◌, ◌%◌, ◌^◌, Bool, true, false, ◌==◌, if◌then◌else◌,
}
use pan_vk_kbase.Flags.{MemFlags, no_mem_flags}
use pan_vk_kbase.Kernel
use pan_vk_kbase.Kernel.{Call, ok, fail, M, call, pure, ◌>>=◌, ◌>>◌}
use pan_vk_kbase.Device.{page_size}

abbrev pub alias_flags : MemFlags
alias_flags = record no_mem_flags { prot_gpu_rd = true; prot_gpu_wr = true; prot_cpu_rd = true }

-- `size * nents` on 64 bits
abbrev pub alias_total : (size nents : ℕ) → ℕ
alias_total size nents = size * nents % 2 ^ 64

-- `(va >> 32) == ((va + total - 1) >> 32)`
abbrev pub in_one_4g : (va total : ℕ) → Bool
in_one_4g va total = va / 2 ^ 32 == (va + total + 2 ^ 64 - 1) % 2 ^ 64 / 2 ^ 32

-- The loop of kbase_kmod_alias_create, with the attempts that are left. The caller's assertions
-- bound `nents` by 4, which is what the array of the request holds.
pub alias_loop : (attempts : ℕ) → (bo_va size nents : ℕ) → M ℕ
alias_loop zero bo_va size nents = pure 0
alias_loop (suc n) bo_va size nents =
    let retry = alias_loop n bo_va size nents in
    call (Call.mem_alias alias_flags bo_va (size / page_size) nents) >>= λ r. elim r [
      | fail e ↦ pure 0
      | ok o ↦ call (Call.mmap (alias_total size nents) Kernel.rd (Kernel.at o.value)) >>= λ m.
          elim m [
            | fail e ↦ do call (Call.mem_free o.value); pure 0
            | ok p ↦ elim (in_one_4g p.value (alias_total size nents)) [
              | true ↦ pure p.value
              | false ↦ call (Call.munmap p.value (alias_total size nents)) >> retry
            ]
          ]
    ]

-- kbase_kmod_alias_create
pub alias_create : (bo_va size nents : ℕ) → M ℕ
unfolding alias_loop
alias_create bo_va size nents = alias_loop 16 bo_va size nents

-- kbase_kmod_alias_destroy
pub alias_destroy : (va size nents : ℕ) → M (Unit {0})
alias_destroy va size nents = call (Call.munmap va (alias_total size nents)) >> pure tt
