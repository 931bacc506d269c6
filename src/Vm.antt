-- ===== src/Vm.antt =====
-- The address space of kbase_kmod.c: its range, and the binding operations, which report the
-- addresses that the kernel gave at allocation; with the cache maintenance and the timestamp.
pub mod Bind
pub mod Tests
use pan_vk_kbase.Prelude.{
  ℕ, ◌+◌, ◌-◌, ◌%◌, ◌^◌, Bool, true, false, Option, none, some, List, [], ◌∷◌, ltb, ◌==◌,
  if◌then◌else◌,
}
use pan_vk_kbase.Kernel
use pan_vk_kbase.Kernel.{Call, ok, fail, M, call, pure, ◌>>=◌, ◌>>◌, SyncOp}
use pan_vk_kbase.Device.{Device, Bo, free_opt}

-- KBASE_KMOD_VA_RESERVE
abbrev pub va_reserve : ℕ
va_reserve = 0x2000000

pub record VaRange : Type 0 where
  pub start : ℕ
  pub size : ℕ

-- the end of the range that kbase_kmod_dev_query_user_va_range returns; MMU_FEATURES_VA_BITS is the
-- low byte
pub user_va_end : (mmu_features : ℕ) → ℕ
user_va_end mmu =
    let reported = mmu % 256 in
    let bits = if ltb reported 32 then 32 else reported in
    if bits == 32 then 2 ^ 32 else 2 ^ (bits - 1)

pub query_user_va_range : Device → VaRange
unfolding user_va_end
query_user_va_range d = record {
  start = va_reserve;
  size = user_va_end d.props.mmu_features - va_reserve;
}

-- struct pan_kmod_vm as this backend sets it up: there is no kernel handle
pub record Vm : Type 0 where
  pub self : ℕ
  pub handle : ℕ
  pub auto_va : Bool
  pub pgsize_bitmap : ℕ

-- kbase_kmod_vm_create
vm_create : Device → (auto_va : Bool) → M (Option Vm)
vm_create d auto_va = do
  a ← call Call.alloc
  elim a [
    | fail e ↦ pure none
    | ok p ↦ pure (
        some (record {
          self = p.value;
          handle = 0;
          auto_va = auto_va;
          pgsize_bitmap = d.props.pgsize_bitmap;
        }))
  ]

-- kbase_kmod_vm_destroy
vm_destroy : Vm → M (Unit {0})
vm_destroy vm = call (Call.free vm.self) >> pure tt

pub data Mode : Type 0 where
  immediate async defer_to_next_idle_point : Mode

-- PAN_KMOD_VM_MAP_AUTO_VA
abbrev pub auto_va : ℕ
auto_va = 2 ^ 64 - 1

-- struct pan_kmod_vm_op, the parts that are read here
pub data Op : Type 0 where
  map_bo : Bo → (bo_offset va_start : ℕ) → Op
  unmap : (va_start va_size : ℕ) → Op
  sync_only : Op

-- the address at which the kernel has the object
abbrev pub map_va : Bo → ℕ → ℕ
map_va b offset = (b.gpu_va + offset) % 2 ^ 64

-- The loop of kbase_kmod_vm_bind: whether it got to the end, and the operations with the addresses
-- that it reported.
pub bind_loop : List Op → Bool × List Op
bind_loop [] = (true, [])
bind_loop (map_bo b offset va ∷ ops) =
    let (done, rest) = bind_loop ops in
    if va == auto_va
    then (done, map_bo b offset (map_va b offset) ∷ rest)
    else if va == map_va b offset
    then (done, map_bo b offset va ∷ rest)
    else (false, map_bo b offset va ∷ ops)
bind_loop (unmap va size ∷ ops) = let (done, rest) = bind_loop ops in (done, unmap va size ∷ rest)
bind_loop (sync_only ∷ ops) = let (done, rest) = bind_loop ops in (done, sync_only ∷ rest)

-- kbase_kmod_vm_bind
pub vm_bind : Mode → List Op → Bool × List Op
vm_bind Mode.async ops = (false, ops)
vm_bind _ ops = bind_loop ops

pub data VmState : Type 0 where
  usable faulty : VmState

-- kbase_kmod_vm_query_state
vm_query_state : Vm → VmState
vm_query_state vm = usable

-- struct pan_kmod_deferred_bo_sync
pub data SyncType : Type 0 where
  cpu_cache_flush cpu_cache_flush_and_invalidate : SyncType

pub record BoSync : Type 0 where
  pub bo : Bo
  pub start : ℕ
  pub size : ℕ
  pub type : SyncType

abbrev pub or_null : Option ℕ → ℕ
or_null none = 0
or_null (some p) = p

abbrev pub sync_op : SyncType → SyncOp
sync_op cpu_cache_flush = SyncOp.msync
sync_op cpu_cache_flush_and_invalidate = SyncOp.csync

abbrev pub sync_call : BoSync → Call
sync_call s =
    Call.mem_sync s.bo.gpu_va ((or_null s.bo.cpu_ptr + s.start) % 2 ^ 64) s.size (sync_op s.type)

-- kbase_kmod_flush_bo_map_syncs, over the array of pending syncs
pub flush_bo_map_syncs : List BoSync → M Bool
flush_bo_map_syncs [] = pure true
flush_bo_map_syncs (s ∷ ss) = do
  r ← call (sync_call s)
  elim r [ fail e ↦ pure false | ok o ↦ flush_bo_map_syncs ss ]

-- kbase_kmod_query_timestamp
query_timestamp : M ℕ
query_timestamp = do
  r ← call Call.cpu_gpu_timeinfo
  elim r [ fail e ↦ pure 0 | ok o ↦ pure o.value ]
