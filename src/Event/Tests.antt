-- ===== src/Event/Tests.antt =====
-- Runs of the definitions of Event, and its theorem at a concrete input.
use pan_vk_kbase.Prelude.{◌≡◌, refl, true, false, none, some, List, [], ◌∷◌}
use pan_vk_kbase.Flags.{no_bo_flags}
use pan_vk_kbase.Kernel.Sample.{sample}
use pan_vk_kbase.PrivBo.{PanvkDev, PrivBo, priv_bo_ref, vk_event_set, vk_event_reset}
use pan_vk_kbase.Pool.{Pool, Refs, alloc_mem, alloc_fitting, cut}
use pan_vk_kbase.Pool.Reset.{empty_pool}
use pan_vk_kbase.Event.{
  CsSync32, zeros, Event, write_array, create_event, create_event_at, create_with, get_event_status,
  status_from, set_event, reset_event,
}
use pan_vk_kbase.Event.Status.{
  EventOp, set_op, reset_op, signal_op, event_run, event_step, set_run, status_of,
  get_event_status-event_run,
}

abbrev event_dev : PanvkDev
event_dev = record {
  vm = record { self = 1; auto_va = true; pgsize_bitmap = 4096; sparse_dummy = none };
  priv_heap = 2;
  choose_alignment = λ size. 4096;
}

abbrev event_bo : PrivBo
event_bo = record {
  self = 32;
  refcnt = 1;
  bo = record { self = 48; size = 4096; flags = no_bo_flags; handle = 64; refcnt = 1; priv = 64 };
  dev_addr = 8192;
  host = some 8192;
}

-- a shared pool whose buffer has room
abbrev event_pool : Pool
event_pool =
    record (empty_pool none none (record {
      create_flags = no_bo_flags;
      slab_size = 4096;
      owns_bos = false;
      needs_locking = false;
      prealloc = false;
    })) { transient_bo = some event_bo; transient_offset = 100 }

abbrev event_refs : Refs
event_refs x = 1

-- what the memory held before
abbrev old_sync : CsSync32
old_sync = record { seqno = 7; error = 7 }

abbrev new_event : Event
new_event =
    write_array (λ s. zeros)
      (record {
        self = 4096;
        syncobjs = record { bo = some event_bo; owned_by_pool = false; offset = 128 };
        sync = λ i. old_sync;
      })

new_event-created :
    (create_event event_dev 64 event_pool event_refs (λ i. old_sync) sample []).0.0.1
    ≡ some new_event
unfolding create_event create_event_at create_with alloc_mem alloc_fitting cut priv_bo_ref
new_event-created = refl

-- The GPU signals two of three subqueues, then the third.
abbrev some_ops : List EventOp
some_ops = set_op ∷ reset_op ∷ signal_op 0 1 ∷ signal_op 2 1 ∷ []

some_ops-status :
    (get_event_status (event_run some_ops new_event) ≡ vk_event_reset)
    × (get_event_status (event_run (signal_op 1 4 ∷ some_ops) new_event) ≡ vk_event_reset)
    × (get_event_status
          (event_run (reset_op ∷ signal_op 1 4 ∷ signal_op 0 1 ∷ signal_op 2 1 ∷ []) new_event)
        ≡ vk_event_set)
unfolding get_event_status status_from event_run event_step set_event reset_event
some_ops-status = (refl, refl, refl)

get_event_status-event_run_example :
    get_event_status (event_run some_ops new_event) ≡ status_of (set_run some_ops (λ i. false))
get_event_status-event_run_example =
    get_event_status-event_run sample event_dev 64 (λ i. old_sync) event_pool event_refs []
      new_event some_ops new_event-created
