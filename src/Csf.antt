-- ===== src/Csf.antt =====
-- Command-stream primitives of kbase_kmod.c: the firmware interface, queue groups, queues, tiler
-- heaps and the notification stream.
pub mod Info
pub mod Queue
pub mod Event
pub mod Tests
use pan_vk_kbase.Prelude.{
  ℕ, zero, suc, ◌+◌, ◌-◌, ◌*◌, ◌/◌, ◌%◌, ◌^◌, Bool, true, false, ◌||◌, not, Option, none, some, min,
  ltb, ◌==◌, if◌then◌else◌,
}
use pan_vk_kbase.Kernel
use pan_vk_kbase.Kernel.{
  Call, Errno, eintr, Out, Reply, ok, fail, M, call, pure, ◌>>=◌, ◌>>◌, GroupReq, HeapReq,
  Notification,
}
use pan_vk_kbase.Device.{Device, Csif, version_at_least, free_opt, munmap_opt}

-- the address that an allocation gave
abbrev pub address : Reply → Option ℕ
address (fail e) = none
address (ok o) = some o.value

-- the count that the scoreboard field of the stream features gives, 1 to 16, or else 8. The
-- subtraction is on 32 bits.
pub scoreboard_slots : (stream_features : ℕ) → ℕ
scoreboard_slots features =
    let count = features / 2 ^ 8 % 256 in
    if ltb ((count + 2 ^ 32 - 1) % 2 ^ 32) 16 then count else 8

csif_of : (group_num : ℕ) → Out → Csif
csif_of group_num o = record {
  csg_slot_count = group_num;
  cs_slot_count = o.value;
  cs_reg_count = 96;
  scoreboard_slot_count = scoreboard_slots o.second;
  unpreserved_cs_reg_count = 4;
}

-- the second request of kbase_query_csif_info, between the two allocations and their release
unfoldable pub csif_fill :
    (group_num stream_num : ℕ) → (groups streams : Option ℕ) → M (Option Csif)
unfolding csif_of scoreboard_slots
csif_fill g s (some groups) (some streams) = do
  r ← call (Call.glb_iface_fill g s)
  call (Call.free groups)
  call (Call.free streams)
  pure (elim r [ fail e ↦ none | ok o ↦ some (csif_of g o) ])
csif_fill g s groups streams = do free_opt groups; free_opt streams; pure none

-- kbase_query_csif_info
unfoldable pub query_csif_info : M (Option Csif)
unfolding csif_fill
query_csif_info = do
  r ← call Call.glb_iface_probe
  elim r [
    | fail e ↦ pure none
    | ok o ↦ elim ((o.value == 0) || (o.second == 0)) [
      | true ↦ pure none
      | false ↦ do
        groups ← call Call.alloc
        streams ← call Call.alloc
        csif_fill o.value o.second (address groups) (address streams)
    ]
  ]

-- kbase_kmod_get_csif_props, under the caller's assertion that the device is a CSF one
get_csif_props : Device → Csif
get_csif_props d = d.csif_info

-- kbase_kmod_get_flush_id, with `latest_flush` what the register of the mapped page reads
get_flush_id : Device → (latest_flush : ℕ) → ℕ
get_flush_id d latest_flush = elim d.user_reg_page [ none ↦ 0 | some _ ↦ latest_flush ]

abbrev pub group_req : (cs_queue_count : ℕ) → GroupReq
group_req n = record {
  tiler_mask = 1;
  fragment_mask = 2 ^ 64 - 1;
  compute_mask = 2 ^ 64 - 1;
  cs_min = n;
  priority = 0;
  tiler_max = 1;
  fragment_max = 64;
  compute_max = 64;
}

-- the request in the 1.6 layout
group_create_1_6 : (cs_queue_count : ℕ) → M (Option ℕ)
group_create_1_6 n = do
  r ← call (Call.group_create_1_6 (group_req n))
  elim r [ fail e ↦ pure none | ok o ↦ pure (some o.value) ]

-- kbase_kmod_csf_group_create. The current layout, which also asks for fault reports, is tried from
-- version 1.25 on.
pub group_create : Device → (cs_queue_count : ℕ) → M (Option ℕ)
unfolding group_create_1_6
group_create d n = elim (version_at_least d.driver 1 25) [
  | true ↦ do
    r ← call (Call.group_create (group_req n))
    elim r [ fail e ↦ group_create_1_6 n | ok o ↦ pure (some o.value) ]
  | false ↦ group_create_1_6 n
]

-- kbase_kmod_csf_group_destroy
pub group_destroy : (group_handle : ℕ) → M (Unit {0})
group_destroy g = call (Call.group_terminate g) >> pure tt

-- BASEP_QUEUE_NR_MMAP_USER_PAGES * 4096
abbrev pub user_io_size : ℕ
user_io_size = 3 * 4096

-- the label `err_term_queue`
abbrev term_queue : (ringbuf_va : ℕ) → M (Option ℕ)
term_queue va = do call (Call.queue_terminate va); pure none

-- kbase_kmod_csf_queue_bind
pub queue_bind : (group_handle csi_index ringbuf_va ringbuf_size : ℕ) → M (Option ℕ)
queue_bind group csi va size = do
  r ← call (Call.queue_register va size 0)
  elim r [
    | fail e ↦ pure none
    | ok _ ↦ do
      b ← call (Call.queue_bind va group csi)
      elim b [
        | fail e ↦ term_queue va
        | ok o ↦ do
          m ← call (Call.mmap user_io_size Kernel.rd_wr (Kernel.user_io o.value))
          elim m [ fail e ↦ term_queue va | ok p ↦ pure (some p.value) ]
      ]
  ]

-- kbase_kmod_csf_queue_term
pub queue_term : (ringbuf_va : ℕ) → (user_io : Option ℕ) → M (Unit {0})
queue_term va user_io = do munmap_opt user_io user_io_size; call (Call.queue_terminate va); pure tt

-- kbase_kmod_csf_queue_kick
pub queue_kick : (ringbuf_va : ℕ) → M Bool
queue_kick va = do r ← call (Call.queue_kick va); elim r [ fail e ↦ pure false | ok o ↦ pure true ]

-- kbase_kmod_csf_tiler_heap_create: the heap's context and its first chunk
pub tiler_heap_create :
    (chunk_size initial_chunks max_chunks target_in_flight mem_group_id : ℕ) → M (Option (ℕ × ℕ))
tiler_heap_create chunk_size initial_chunks max_chunks target_in_flight group = do
  r ← call (
      Call.heap_init (record {
        chunk_size = chunk_size;
        initial_chunks = initial_chunks;
        max_chunks = max_chunks;
        target_in_flight = min target_in_flight 65535;
        group_id = group;
      }))
  elim r [ fail e ↦ pure none | ok o ↦ pure (some (o.value, o.second)) ]

-- kbase_kmod_csf_tiler_heap_destroy
pub tiler_heap_destroy : (heap_ctx_va : ℕ) → M (Unit {0})
tiler_heap_destroy va = call (Call.heap_term va) >> pure tt

-- the part of kbase_log_csf_notification that is not a log message
pub latch_notification : Device → Notification → Device
latch_notification d (Notification.gpu_queue_group_error g e) = record d { csf_error = true }
latch_notification d _ = d

-- The loop that reads one record, with the retries left.
pub read_loop : ℕ → M (Option Reply)
read_loop zero = pure none
read_loop (suc n) =
    let retry = read_loop n in
    call Call.read_event >>= λ r. elim r [
      | ok o ↦ pure (some (ok o))
      | fail e ↦ elim e [ eintr ↦ retry | other_errno ↦ pure (some (fail other_errno)) ]
    ]

-- Whether kbase_kmod_csf_wait_event returned 0, or -1 with errno, or used up its retries.
pub data Waited : Type 0 where
  waited : Waited
  failed : Errno → Waited
  out_of_retries : Waited

-- sizeof(struct base_csf_notification)
abbrev pub notification_size : ℕ
notification_size = 64

-- what follows the read
pub after_read : Device → Option Reply → Waited × Device
unfolding latch_notification
after_read d none = (out_of_retries, d)
after_read d (some (fail e)) = (failed e, d)
after_read d (some (ok o)) =
    if o.value == notification_size
    then (waited, latch_notification d o.notification)
    else (failed Errno.eio, d)

abbrev pub ppoll_call : (fd timeout_ns : ℕ) → Call
ppoll_call fd timeout_ns = Call.ppoll fd (timeout_ns / 10 ^ 9) (timeout_ns % 10 ^ 9)

-- kbase_kmod_csf_wait_event; a timeout is not negative
pub wait_event : (retries : ℕ) → Device → (timeout_ns : ℕ) → M (Waited × Device)
unfolding read_loop after_read
wait_event retries d timeout_ns = do
  r ← call (ppoll_call d.fd timeout_ns)
  elim r [
    | fail e ↦ elim e [ eintr ↦ pure (waited, d) | other_errno ↦ pure (failed other_errno, d) ]
    | ok o ↦ elim ((o.value == 0) || (o.second == 0)) [
      | true ↦ pure (waited, d)
      | false ↦ do rd ← read_loop retries; pure (after_read d rd)
    ]
  ]
