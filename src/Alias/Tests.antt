-- ===== src/Alias/Tests.antt =====
-- Runs of the definitions of Alias, and its theorems at concrete inputs.
use pan_vk_kbase.Prelude.{◌+◌, ◌/◌, ◌^◌, ◌≡◌, refl, [], arith}
use pan_vk_kbase.Kernel.Sample.{sample}
use pan_vk_kbase.Kernel.Ledger.{held, region}
use pan_vk_kbase.Alias.{alias_create, alias_loop, alias_destroy}
use pan_vk_kbase.Alias.Create.{MapsNonzero, alias_create-in_one_4g, alias_destroy-alias_create}

sample-MapsNonzero : MapsNonzero sample
sample-MapsNonzero l len p off = λ e. absurd (omega arith)

alias_create_runs : (alias_create 0x10000 8192 2 sample []).0 ≡ 8192
unfolding alias_create alias_loop
alias_create_runs = refl

alias_create-in_one_4g_example :
    ((alias_create 0x10000 8192 2 sample []).0 + 5) / 2 ^ 32
    ≡ (alias_create 0x10000 8192 2 sample []).0 / 2 ^ 32
unfolding alias_create alias_loop
alias_create-in_one_4g_example =
    alias_create-in_one_4g 0x10000 8192 2 5 sample [] (omega arith) (omega arith) (omega arith)

alias_destroy-alias_create_example :
    held
      (alias_destroy
        (alias_create 0x10000 8192 2 sample []).0
        8192
        2
        sample
        (alias_create 0x10000 8192 2 sample []).1).1
      region
      4096
    ≡ held [] region 4096
unfolding alias_create alias_loop
alias_destroy-alias_create_example =
    alias_destroy-alias_create 0x10000 8192 2 sample [] region 4096 sample-MapsNonzero (omega arith)
