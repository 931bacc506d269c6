-- ===== src/Kernel.antt =====
-- The boundary of kbase_kmod.c: the system calls it makes, and what it can see of their outcome.
-- The kernel itself is a parameter: any function of the calls made so far and the call at hand.
-- A command runs against such a kernel and extends the log of calls, newest first.
pub mod Ledger
pub mod Sample
use pan_vk_kbase.Prelude.{ℕ, Option, none, List, [], ◌∷◌}
use Prim.Native.String.{String}
use pan_vk_kbase.Flags.{MemFlags, no_mem_flags}

-- the values of errno that the code tells apart or sets
pub data Errno : Type 0 where
  eintr enosys enotsup einval eio other : Errno

-- `error_type` of a queue group error, BASE_GPU_QUEUE_GROUP_*
pub data GroupError : Type 0 where
  fatal queue_fatal timeout tiler_heap_oom queue_fault : GroupError
  unknown : ℕ → GroupError

-- `type` of a CSF notification, BASE_CSF_NOTIFICATION_*
pub data Notification : Type 0 where
  event cpu_queue_dump : Notification
  gpu_queue_group_error : (group : ℕ) → GroupError → Notification
  other_type : ℕ → Notification

-- the fields of a request that the kernel fills in. What `value`, `second` and `third` hold is said
-- at each call.
pub record Out : Type 0 where
  pub value : ℕ
  pub second : ℕ
  pub third : ℕ
  pub fd : Option ℕ
  pub flags : MemFlags
  pub bytes : List ℕ
  pub notification : Notification

pub data Reply : Type 0 where
  fail : Errno → Reply
  ok : Out → Reply

-- where on the kbase file descriptor an mmap() lands
pub data Offset : Type 0 where
  tracking user_reg : Offset
  -- a region's cookie or address
  at : ℕ → Offset
  -- the handle that CS_QUEUE_BIND gave
  user_io : ℕ → Offset

pub data Prot : Type 0 where
  nothing rd rd_wr : Prot

-- struct base_mem_alloc request
pub record AllocReq : Type 0 where
  pub va_pages : ℕ
  pub commit_pages : ℕ
  pub extension : ℕ
  pub flags : MemFlags

-- kbase_ioctl_cs_queue_group_create, and its 1.6 layout, which has no fault report.
-- `~0ull` is 2 ^ 64 - 1.
pub record GroupReq : Type 0 where
  pub tiler_mask : ℕ
  pub fragment_mask : ℕ
  pub compute_mask : ℕ
  pub cs_min : ℕ
  pub priority : ℕ
  pub tiler_max : ℕ
  pub fragment_max : ℕ
  pub compute_max : ℕ

pub record HeapReq : Type 0 where
  pub chunk_size : ℕ
  pub initial_chunks : ℕ
  pub max_chunks : ℕ
  pub target_in_flight : ℕ
  pub group_id : ℕ

pub data SyncOp : Type 0 where
  msync csync : SyncOp

pub data Call : Type 0 where
  -- `value.second` is the version
  version_check_csf version_check_jm : Call
  set_flags : ℕ → Call
  -- the size is `value`
  gpuprops_probe : Call
  -- the blob is `bytes`, and what the call returns is their number
  gpuprops_fill : ℕ → Call
  mem_jit_init : (va_pages max_allocations phys_pages : ℕ) → Call
  mem_exec_init : (va_pages : ℕ) → Call
  -- `value` groups, `second` streams, `third` the features
  glb_iface_probe : Call
  -- `value` is the stream count of group 0, `second` the features of stream 0
  glb_iface_fill : (max_groups max_streams : ℕ) → Call
  -- the address is `value`
  mmap : (len : ℕ) → Prot → Offset → Call
  mmap_dmabuf : (fd len : ℕ) → Call
  munmap : (addr len : ℕ) → Call
  -- the handle is `value`
  group_create group_create_1_6 : GroupReq → Call
  group_terminate : ℕ → Call
  queue_register : (va size priority : ℕ) → Call
  -- the mmap handle is `value`
  queue_bind : (va group csi : ℕ) → Call
  queue_terminate queue_kick : (va : ℕ) → Call
  -- `value` is the heap's context, `second` its first chunk
  heap_init : HeapReq → Call
  heap_term : ℕ → Call
  -- the cookie or address is `value`
  mem_alloc mem_alloc_ex : AllocReq → Call
  mem_alias : MemFlags → (bo_va stride nents : ℕ) → Call
  -- as `mem_alloc`, and `second` pages
  mem_import : (fd : ℕ) → MemFlags → Call
  mem_free : (va : ℕ) → Call
  mem_sync : (handle addr size : ℕ) → SyncOp → Call
  -- the new descriptor is `value`
  dma_heap_alloc : (heap_fd len : ℕ) → Call
  dup : (fd : ℕ) → Call
  open_dma_heap : (path : String) → Call
  close : (fd : ℕ) → Call
  -- the id is `value`
  kcpu_create : Call
  kcpu_delete : (id : ℕ) → Call
  kcpu_enqueue_wait : (id addr val : ℕ) → Call
  -- the fence, if there is one, is `fd`
  kcpu_enqueue_fence : (id : ℕ) → Call
  -- `value` descriptors are ready, with `second` set for POLLIN and `third` for POLLERR or POLLHUP
  ppoll : (fd timeout_s timeout_ns : ℕ) → Call
  -- `value` bytes were read, and decode to `notification`
  read_event : Call
  -- the timestamp is `value`
  cpu_gpu_timeinfo : Call
  -- the memory allocator: the address is `value`
  alloc : Call
  free : (addr : ℕ) → Call
  lock unlock : Call
  -- the id is `value`
  context_id : Call
  -- /dev/mali0: the descriptor is `value`
  open_mali : Call
  group_submit : (group stream_addr stream_size : ℕ) → Call
  -- an anonymous mapping without access, with MAP_FIXED, in place of the one at the address: the
  -- address is `value`
  mmap_reserve : (addr size : ℕ) → Call
  -- a mapping with MAP_FIXED, in place of the one at the address: the address is `value`
  mmap_placed : (addr len : ℕ) → Prot → Offset → Call
  -- util/vma.h, by the heap: the address is `value`, and `fail` stands for the answer 0
  vma_init : (heap start size : ℕ) → Call
  vma_alloc : (heap size alignment : ℕ) → Call
  vma_alloc_at : (heap addr size : ℕ) → Call
  vma_free : (heap addr size : ℕ) → Call
  vma_finish : (heap : ℕ) → Call
  -- a store of an object's address into the slot of its handle
  set_slot : (handle object : ℕ) → Call
  -- a load from mapped memory: the word is `value`. A load has no failure.
  read32 : (addr : ℕ) → Call
  -- memset() to zero, and a store to mapped memory
  memset0 : (addr size : ℕ) → Call
  write32 : (addr word : ℕ) → Call
  -- a message on stderr: `value` characters, and `fail` for a negative answer
  fprintf : Call

abbrev pub Log : Type 0
Log = List (Call × Reply)

abbrev pub Kernel : Type 0
Kernel = Log → Call → Reply

abbrev pub M : Type 0 → Type 0
M A = Kernel → Log → A × Log

abbrev pub pure : {A : Type 0} → A → M A
pure a k l = (a, l)

infixl 5 ◌>>=◌ ◌>>◌
abbrev pub ◌>>=◌ : {A B : Type 0} → M A → (A → M B) → M B
◌>>=◌ m f k l = let (a, l') = m k l in f a k l'

abbrev pub ◌>>◌ : {A B : Type 0} → M A → M B → M B
m >> n = m >>= λ _. n

abbrev pub call : Call → M Reply
call c k l = (k l c, (c, k l c) ∷ l)

-- A mutex is the process's own, and taking it does not fail.
abbrev pub no_out : Out
no_out = record {
  value = 0;
  second = 0;
  third = 0;
  fd = none;
  flags = no_mem_flags;
  bytes = [];
  notification = event;
}

abbrev pub own_call : Call → M (Unit {0})
own_call c k l = (tt, (c, ok no_out) ∷ l)
