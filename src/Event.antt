-- ===== src/Event.antt =====
-- Events: mesa_src/mesa_vulkan/csf/panvk_vX_event.c. An event has a sync object of each of the 3
-- subqueues, in memory of a pool.
pub mod Status
pub mod Tests
use pan_vk_kbase.Prelude.{
  ℕ, zero, suc, ◌*◌, Bool, true, false, Option, none, some, List, [], ◌∷◌, ltb, ◌==◌, if◌then◌else◌,
}
use pan_vk_kbase.Kernel.{Call, Reply, ok, fail, M, call, own_call, pure, ◌>>=◌, ◌>>◌}
use pan_vk_kbase.PrivBo.{
  PanvkDev, PrivBo, VkResult, vk_success, vk_error_out_of_host_memory, vk_event_set, vk_event_reset,
}
use pan_vk_kbase.Pool.{Pool, Refs, PrivMem, AllocInfo, alloc_mem}
use pan_vk_kbase.Pool.Free.{free_mem}

-- struct panvk_cs_sync32
pub record CsSync32 : Type 0 where
  pub seqno : ℕ
  pub error : ℕ

abbrev pub zeros : CsSync32
zeros = record { seqno = 0; error = 0 }

-- PANVK_SUBQUEUE_COUNT
abbrev pub subqueue_count : ℕ
subqueue_count = 3

-- struct panvk_event, with what its memory holds by the subqueue
pub record Event : Type 0 where
  pub self : ℕ
  pub syncobjs : PrivMem
  pub sync : ℕ → CsSync32

-- the sync objects of the event, changed, and what lies behind them
abbrev pub write_array : (CsSync32 → CsSync32) → Event → Event
write_array f e = record e { sync = λ i. if ltb i subqueue_count then f (e.sync i) else e.sync i }

abbrev pub Created : Type 0
Created = (VkResult × Option Event) × Pool × Refs

-- by the memory of the pool
unfoldable pub create_with :
    Option PrivBo → (self : ℕ) → PrivMem → (ℕ → CsSync32) → M (VkResult × Option Event)
create_with none self mem sync = do
  own_call (Call.free self)
  pure (vk_error_out_of_host_memory, none)
create_with (some b) self mem sync = pure (
  vk_success,
  some (write_array (λ s. zeros) (record { self = self; syncobjs = mem; sync = sync })),
)

-- by the reply of the memory allocator. `sync` is what the memory of the pool holds at first.
unfoldable pub create_event_at :
    Reply → PanvkDev → (atom : ℕ) → Pool → Refs → (sync : ℕ → CsSync32) → M Created
unfolding alloc_mem create_with
create_event_at (fail e) dev atom p refs sync = pure ((vk_error_out_of_host_memory, none), p, refs)
create_event_at (ok o) dev atom p refs sync = do
  (mem, p', refs') ←
      alloc_mem dev atom (record { size = 8 * subqueue_count; alignment = 64 }) p refs
  r ← create_with mem.bo o.value mem sync
  pure (r, p', refs')

-- panvk_per_arch(CreateEvent)
unfoldable pub create_event :
    PanvkDev → (atom : ℕ) → Pool → Refs → (sync : ℕ → CsSync32) → M Created
unfolding create_event_at
create_event dev atom p refs sync = do a ← call Call.alloc; create_event_at a dev atom p refs sync

-- panvk_per_arch(DestroyEvent), where there may be no event
unfoldable pub destroy_event : PanvkDev → Option Event → Refs → M Refs
unfolding free_mem
destroy_event dev none refs = pure refs
destroy_event dev (some e) refs = do
  refs' ← free_mem dev e.syncobjs refs
  own_call (Call.free e.self)
  pure refs'

-- the loop of GetEventStatus, over `n` subqueues from a number on
unfoldable pub status_from : (n i : ℕ) → (ℕ → CsSync32) → VkResult
status_from zero i sync = vk_event_set
status_from (suc n) i sync =
    let rest = status_from n (suc i) sync in if (sync i).seqno == 0 then vk_event_reset else rest

-- panvk_per_arch(GetEventStatus)
unfoldable pub get_event_status : Event → VkResult
unfolding status_from
get_event_status e = status_from subqueue_count 0 e.sync

-- panvk_per_arch(SetEvent)
unfoldable pub set_event : Event → Event
set_event e = write_array (λ s. record s { seqno = 1 }) e

-- panvk_per_arch(ResetEvent)
unfoldable pub reset_event : Event → Event
reset_event e = write_array (λ s. zeros) e
