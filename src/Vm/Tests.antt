-- ===== src/Vm/Tests.antt =====
-- Runs of the definitions of Vm, and its theorems at concrete inputs.
use pan_vk_kbase.Prelude.{◌≡◌, ◌↔◌, refl, true, false, List, [], ◌∷◌, some, none, arith}
use pan_vk_kbase.Flags.{no_bo_flags}
use pan_vk_kbase.Device.{Bo}
use pan_vk_kbase.Vm.{
  Op, map_bo, unmap, sync_only, immediate, auto_va, bind_loop, vm_bind, BoSync, cpu_cache_flush,
  cpu_cache_flush_and_invalidate,
}
use pan_vk_kbase.Vm.Bind.{AllMappable, vm_bind-AllMappable}

abbrev some_bo : Bo
some_bo = record {
  self = 0x100;
  exclusive_vm = none;
  size = 8192;
  flags = no_bo_flags;
  handle = 2;
  refcnt = 1;
  gpu_va = 0x40000000;
  cpu_ptr = some 0x40000000;
  gpu_mapping = some 0x40000000;
  dmabuf_fd = none;
  owns_cpu_mapping = true;
  same_va = true;
}

-- one address left open, one named, and an operation of each other type
abbrev ops : List Op
ops =
    map_bo some_bo 0 auto_va ∷ map_bo some_bo 4096 0x40001000 ∷ unmap 0x1000 0x1000 ∷ sync_only ∷ []

abbrev clashing_ops : List Op
clashing_ops = map_bo some_bo 4096 0x40000000 ∷ []

vm_bind_clash : (vm_bind immediate clashing_ops).0 ≡ false
unfolding vm_bind bind_loop
vm_bind_clash = refl

vm_bind-AllMappable_example : ((vm_bind immediate ops).0 ≡ true) ↔ AllMappable ops
vm_bind-AllMappable_example = vm_bind-AllMappable immediate ops (ground arith)

abbrev syncs : List BoSync
syncs =
    record { bo = some_bo; start = 0; size = 64; type = cpu_cache_flush }
    ∷ record { bo = some_bo; start = 64; size = 64; type = cpu_cache_flush_and_invalidate }
    ∷ []
