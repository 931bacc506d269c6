-- ===== src/Bo.antt =====
-- Buffer objects of mesa_src/lib/mesa_kmod/kbase_kmod.c: allocation, import and export,
-- mapping and release.
pub mod Owned
pub mod Alloc
pub mod Handles
pub mod Zone
pub mod Layout
pub mod Protect
pub mod Tests
use pan_vk_kbase.Prelude.{
  ℕ, ◌+◌, ◌*◌, ◌/◌, ◌%◌, ◌^◌, Bool, true, false, ◌&&◌, ◌||◌, not, Option, none, some, ◌==◌,
  if◌then◌else◌,
}
use pan_vk_kbase.Flags.{MemFlags, BoFlags, no_mem_flags, no_bo_flags}
use pan_vk_kbase.Kernel
use pan_vk_kbase.Kernel.{Call, Out, ok, fail, M, call, pure, ◌>>=◌, ◌>>◌, AllocReq, Errno}
use pan_vk_kbase.Dmabuf.{Made, import_dmabuf}
use pan_vk_kbase.Device.{
  Device, Bo, page_size, version_at_least, next_handle, bo_init_flags, close_opt, munmap_opt,
}

pub to_kbase_mem_flags : BoFlags → MemFlags
to_kbase_mem_flags f = record no_mem_flags {
  prot_gpu_rd = true;
  prot_gpu_wr = not f.executable;
  prot_cpu_rd = true;
  prot_cpu_wr = true;
  prot_gpu_ex = f.executable;
  same_va = not f.executable;
  coherent_local = not f.csf_event;
  uncached_gpu = f.gpu_uncached;
  cached_cpu = f.wb_mmap;
  coherent_system = f.io_coherent;
  grow_on_gpf = f.alloc_on_fault;
  csf_event = f.csf_event;
}

-- ALIGN_POT to the page, on 64 bits
abbrev pub align_page : ℕ → ℕ
align_page n = (n + 4095) % 2 ^ 64 / page_size * page_size

-- kbase_kmod_bo_alloc_dmabuf
pub bo_alloc_dmabuf : Device → (heap_fd size : ℕ) → BoFlags → M Made
unfolding import_dmabuf
bo_alloc_dmabuf d heap_fd size f = do
  r ← call (Call.dma_heap_alloc heap_fd (align_page size))
  elim r [
    | fail e ↦ pure (none, d)
    | ok o ↦ do bo ← import_dmabuf d none o.value f false; call (Call.close o.value); pure bo
  ]

abbrev pub va_pages : ℕ → ℕ
va_pages size = (size + 4095) % 2 ^ 64 / page_size

abbrev pub alloc_req : ℕ → BoFlags → AllocReq
unfolding to_kbase_mem_flags
alloc_req size f = record {
  va_pages = va_pages size;
  commit_pages = if f.alloc_on_fault then 0 else va_pages size;
  extension = if f.alloc_on_fault then 512 else 0;
  flags = to_kbase_mem_flags f;
}

abbrev alloc_bo : Device → Option ℕ → ℕ → BoFlags → (self : ℕ) → Out → (ptr : ℕ) → Bo
alloc_bo d vm size f self o ptr = record {
  self = self;
  exclusive_vm = vm;
  size = va_pages size * page_size % 2 ^ 64;
  flags = bo_init_flags d f;
  handle = next_handle d;
  refcnt = 1;
  gpu_va = if o.flags.same_va then ptr else o.value;
  cpu_ptr = some ptr;
  gpu_mapping = some ptr;
  dmabuf_fd = none;
  owns_cpu_mapping = true;
  same_va = o.flags.same_va;
}

-- kbase_kmod_bo_alloc from its own allocation on
pub bo_alloc_kbase : Device → Option ℕ → ℕ → BoFlags → M Made
bo_alloc_kbase d vm size f = do
  a ← call Call.alloc
  elim a [
    | fail e ↦ pure (none, d)
    | ok b ↦ do
      r ← call (
          if d.is_csf && version_at_least d.driver 1 9
          then Call.mem_alloc_ex (alloc_req size f)
          else Call.mem_alloc (alloc_req size f))
      elim r [
        | fail e ↦ do call (Call.free b.value); pure (none, d)
        | ok o ↦ do
          m ← call (Call.mmap (va_pages size * page_size % 2 ^ 64) Kernel.rd_wr (Kernel.at o.value))
          elim m [
            | ok p ↦ pure (
              some (alloc_bo d vm size f b.value o p.value),
              record d { next_handle = next_handle d },
            )
            | fail e ↦ do call (Call.mem_free o.value); call (Call.free b.value); pure (none, d)
          ]
      ]
  ]

-- the choice at the head of kbase_kmod_bo_alloc, with `dma_heap_fd` at hand
pub bo_alloc_from : (dma_heap_fd : Option ℕ) → Device → Option ℕ → ℕ → BoFlags → M Made
bo_alloc_from (some heap_fd) d none size f =
    if f.executable || f.alloc_on_fault || f.csf_event
    then bo_alloc_kbase d none size f
    else bo_alloc_dmabuf d heap_fd size f
bo_alloc_from none d none size f = bo_alloc_kbase d none size f
bo_alloc_from heap d (some vm) size f = bo_alloc_kbase d (some vm) size f

-- kbase_kmod_bo_alloc
pub bo_alloc : Device → Option ℕ → ℕ → BoFlags → M Made
unfolding bo_alloc_from bo_alloc_dmabuf bo_alloc_kbase
bo_alloc d vm size f = bo_alloc_from d.dma_heap_fd d vm size f

abbrev eq_opt : Option ℕ → Option ℕ → Bool
eq_opt none none = true
eq_opt (some a) (some b) = a == b
eq_opt _ _ = false

-- kbase_kmod_bo_free. pan_kmod_bo_cleanup has no effect: pan_kmod_flush_bo_map_syncs_locked of
-- pan_kmod.c has an empty body.
pub bo_free : Bo → M (Unit {0})
bo_free b = do
  (if b.owns_cpu_mapping && not (eq_opt b.cpu_ptr b.gpu_mapping)
      then munmap_opt b.cpu_ptr b.size
      else pure tt)
  munmap_opt b.gpu_mapping b.size
  (if b.same_va then pure tt else call (Call.mem_free b.gpu_va) >> pure tt)
  close_opt b.dmabuf_fd
  call (Call.free b.self)
  pure tt

-- kbase_kmod_bo_import_fd
pub bo_import_fd : Device → (fd : ℕ) → M Made
unfolding import_dmabuf
bo_import_fd d fd = import_dmabuf d none fd no_bo_flags true

-- What sets errno, and otherwise a value.
pub data OrErrno (A : Type 0) : Type 0 where
  got : A → OrErrno A
  errno : Errno → OrErrno A

-- kbase_kmod_bo_export_fd
bo_export_fd : Bo → M (OrErrno ℕ)
bo_export_fd b = elim b.dmabuf_fd [
  | none ↦ pure (errno Errno.enosys)
  | some n ↦ do
    r ← call (Call.dup n)
    elim r [ fail e ↦ pure (errno e) | ok o ↦ pure (got o.value) ]
]

-- kbase_kmod_bo_get_mmap_offset
pub bo_get_mmap_offset : Bo → ℕ
bo_get_mmap_offset b = b.gpu_va

-- kbase_kmod_bo_mmap
pub bo_mmap : Bo → (host_addr : Option ℕ) → OrErrno ℕ
bo_mmap b host = elim b.cpu_ptr [
  | none ↦ elim host [ none ↦ errno Errno.einval | some _ ↦ errno Errno.enotsup ]
  | some p ↦ elim host [ none ↦ got p | some h ↦ if h == p then got p else errno Errno.enotsup ]
]
