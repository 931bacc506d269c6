-- ===== src/Pan.antt =====
-- The kbase backend that mesa_src/lib/mesa_kmod/pan_kmod.c holds itself: its buffer objects and its
-- one command-stream queue. Reads of the output page for log messages are left out.
pub mod Memory
pub mod Ring
pub mod Region
pub mod Space
pub mod Sparse
pub mod Device
pub mod Lifetime
pub mod Gpu
pub mod Binding
pub mod Blob
pub mod Closing
pub mod Tests
pub mod DeviceTests
use pan_vk_kbase.Prelude.{
  ℕ, suc, ◌+◌, ◌-◌, ◌*◌, ◌/◌, ◌%◌, ◌^◌, Bool, true, false, ◌||◌, Option, none, some, List, [], ◌∷◌,
  ◌==◌, ltb, if◌then◌else◌, length,
}
use pan_vk_kbase.Flags.{MemFlags, BoFlags, no_mem_flags, no_bo_flags}
use pan_vk_kbase.Kernel
use pan_vk_kbase.Kernel.{Call, ok, fail, M, call, pure, ◌>>=◌, ◌>>◌, AllocReq}
use pan_vk_kbase.Device.{munmap_opt}

-- struct pan_kmod_bo, with `priv` the address
pub record PanBo : Type 0 where
  pub self : ℕ
  pub size : ℕ
  pub flags : BoFlags
  pub handle : ℕ
  pub refcnt : ℕ
  pub priv : ℕ

-- the request of kbase_bo_alloc: an executable object has the same flags as any other
abbrev pub bo_req : (size : ℕ) → AllocReq
bo_req size = record {
  va_pages = (size + 4095) % 2 ^ 64 / 4096;
  commit_pages = (size + 4095) % 2 ^ 64 / 4096;
  extension = 0;
  flags = record no_mem_flags {
    prot_cpu_rd = true;
    prot_cpu_wr = true;
    prot_gpu_rd = true;
    prot_gpu_wr = true;
    coherent_system = true;
    same_va = true;
  };
}

-- kbase_bo_alloc. A device of this backend is coherent, which pan_kmod_bo_init notes in the flags.
unfoldable pub kbase_bo_alloc : (size : ℕ) → BoFlags → M (Option PanBo)
kbase_bo_alloc size f = do
  r ← call (Call.mem_alloc (bo_req size))
  elim r [
    | fail e ↦ pure none
    | ok o ↦ do
      a ← call Call.alloc
      elim a [
        | fail e ↦ pure none
        | ok b ↦ pure (
            some (record {
              self = b.value;
              size = size;
              flags = record f { io_coherent = true };
              handle = o.value % 2 ^ 32;
              refcnt = 1;
              priv = o.value;
            }))
      ]
  ]

-- kbase_bo_free
unfoldable pub kbase_bo_free : PanBo → M (Unit {0})
kbase_bo_free b = call (Call.free b.self) >> pure tt

-- kbase_bo_get_mmap_offset
unfoldable pub kbase_bo_get_mmap_offset : PanBo → ℕ
kbase_bo_get_mmap_offset b = b.priv

-- pan_kmod_bo_put: the object that is left, if any
unfoldable pub bo_put : PanBo → M (Option PanBo)
unfolding kbase_bo_free
bo_put b = elim ((b.refcnt + 2 ^ 32 - 1) % 2 ^ 32 == 0) [
  | true ↦ kbase_bo_free b >> pure none
  | false ↦ pure (some (record b { refcnt = (b.refcnt + 2 ^ 32 - 1) % 2 ^ 32 }))
]

-- struct kbase_cs_queue, with the memory behind its pointers: the bytes of the ring by their offset,
-- the word of the input page, and the doorbell
pub record CsQueue : Type 0 where
  pub ring : Option ℕ
  pub ring_gpu_va : ℕ
  pub ring_size : ℕ
  pub user_io : Option ℕ
  pub user_io_gpu_va : ℕ
  pub mmap_handle : ℕ
  pub created : Bool
  pub ring_bytes : ℕ → ℕ
  pub input_page : ℕ
  pub doorbell : ℕ

abbrev pub ring_req : AllocReq
ring_req = record {
  va_pages = 16;
  commit_pages = 16;
  extension = 0;
  flags = record no_mem_flags {
    prot_cpu_rd = true;
    prot_cpu_wr = true;
    prot_gpu_rd = true;
    prot_gpu_ex = true;
  };
}

-- MAP_FAILED
abbrev map_failed : ℕ
map_failed = 2 ^ 64 - 1

-- the registration, the binding and the USER_IO mapping
create_bound : (group : ℕ) → CsQueue → M (Bool × CsQueue)
create_bound group q = do
  r ← call (Call.queue_register q.ring_gpu_va q.ring_size 0)
  elim r [
    | fail e ↦ pure (false, q)
    | ok _ ↦ do
      b ← call (Call.queue_bind q.ring_gpu_va group 0)
      elim b [
        | fail e ↦ pure (false, q)
        | ok o ↦ do
          m ← call (Call.mmap (3 * 4096) Kernel.rd_wr (Kernel.user_io o.value))
          elim m [
            | fail e ↦ pure (false, record q { mmap_handle = o.value; user_io = some map_failed })
            | ok p ↦ pure (
              true,
              record q {
                mmap_handle = o.value;
                user_io = some p.value;
                input_page = 0;
                created = true;
              },
            )
          ]
      ]
  ]

-- The object for the USER_IO pages, of which only the handle is kept. The bit that the code passes
-- as BASE_MEM_PROT_GPU_EX is the one of PAN_KMOD_BO_FLAG_IMPORTED.
create_user_io : (group : ℕ) → CsQueue → M (Bool × CsQueue)
unfolding create_bound kbase_bo_alloc
create_user_io group q = do
  b ← kbase_bo_alloc (3 * 4096) (record no_bo_flags { imported = true })
  elim b [
    | none ↦ pure (false, q)
    | some bo ↦ create_bound group (record q { user_io_gpu_va = bo.handle })
  ]

-- kbase_cs_queue_create: whether it returned 0. What the new memory of the ring holds is not known:
-- the field keeps what it had.
pub cs_queue_create : (group : ℕ) → CsQueue → M (Bool × CsQueue)
unfolding create_user_io
cs_queue_create group q = elim q.created [
  | true ↦ pure (true, q)
  | false ↦ do
    r ← call (Call.mem_alloc ring_req)
    elim r [
      | fail e ↦ pure (false, q)
      | ok o ↦ do
        m ← call (Call.mmap (64 * 1024) Kernel.rd_wr (Kernel.at o.value))
        elim m [
          | fail e ↦ pure (false, record q { ring = some map_failed })
          | ok p ↦
              create_user_io group
                (record q { ring = some p.value; ring_gpu_va = o.value; ring_size = 64 * 1024 })
        ]
    ]
]

-- memcpy() to an offset of the ring
pub write_at : (at : ℕ) → (bytes : List ℕ) → (ℕ → ℕ) → ℕ → ℕ
write_at at [] f i = f i
write_at at (b ∷ bs) f i = if i == at then b else write_at (suc at) bs f i

abbrev pub advanced : CsQueue → List ℕ → CsQueue
unfolding write_at
advanced q stream = record q {
  ring_bytes = write_at q.input_page stream q.ring_bytes;
  input_page = (q.input_page + length stream) % 2 ^ 32;
}

-- the copy, the kick and the doorbell
submit_fitting : CsQueue → (stream : List ℕ) → M (Bool × CsQueue)
unfolding advanced
submit_fitting q stream = do
  k ← call (Call.queue_kick q.ring_gpu_va)
  elim k [
    | fail e ↦ pure (false, advanced q stream)
    | ok _ ↦ pure (true, record (advanced q stream) { doorbell = (advanced q stream).input_page })
  ]

-- what the code turns away
abbrev pub is_refused : CsQueue → (stream : List ℕ) → Bool
is_refused q stream =
    (length stream == 0)
    || ltb q.ring_size (length stream)
    || ltb q.ring_size ((q.input_page + length stream) % 2 ^ 32)

pub submit_created : CsQueue → (stream : List ℕ) → M (Bool × CsQueue)
unfolding submit_fitting
submit_created q stream = elim (is_refused q stream) [
  | true ↦ pure (false, q)
  | false ↦ submit_fitting q stream
]

-- by whether the queue is there yet
submit_from : (created : Bool) → (group : ℕ) → CsQueue → (stream : List ℕ) → M (Bool × CsQueue)
unfolding submit_created cs_queue_create
submit_from true group q stream = submit_created q stream
submit_from false group q stream = do
  (made, q') ← cs_queue_create group q
  elim made [ true ↦ submit_created q' stream | false ↦ pure (false, q') ]

-- kbase_cs_queue_submit
pub cs_queue_submit : (group : ℕ) → CsQueue → (stream : List ℕ) → M (Bool × CsQueue)
unfolding submit_from
cs_queue_submit group q stream = submit_from q.created group q stream

-- kbase_cs_queue_destroy
pub cs_queue_destroy : CsQueue → M CsQueue
cs_queue_destroy q = elim q.created [
  | false ↦ pure q
  | true ↦ do
    call (Call.queue_terminate q.ring_gpu_va)
    munmap_opt q.ring q.ring_size
    munmap_opt q.user_io (3 * 4096)
    pure (record q { ring = none; user_io = none; created = false })
]
