-- ===== src/Dmabuf.antt =====
-- The import of a dma-buf as a buffer object: `kbase_kmod_import_dmabuf` of
-- mesa_src/lib/mesa_kmod/kbase_kmod.c.
use pan_vk_kbase.Prelude.{
  ℕ, ◌*◌, ◌%◌, ◌^◌, Bool, true, false, ◌||◌, Option, none, some, if◌then◌else◌,
}
use pan_vk_kbase.Flags.{MemFlags, BoFlags, no_mem_flags}
use pan_vk_kbase.Kernel
use pan_vk_kbase.Kernel.{Call, Out, ok, fail, M, call, pure, ◌>>=◌, ◌>>◌}
use pan_vk_kbase.Device.{Device, Bo, page_size, next_handle, bo_init_flags}

-- An operation that may return NULL, with the device after it.
abbrev pub Made : Type 0
Made = Option Bo × Device

unfoldable pub import_flags : BoFlags → MemFlags
import_flags f = record no_mem_flags {
  prot_cpu_rd = true;
  prot_cpu_wr = true;
  prot_gpu_rd = true;
  prot_gpu_wr = true;
  import_shared = true;
  coherent_system = true;
  uncached_gpu = f.gpu_uncached;
  cached_cpu = f.wb_mmap;
}

-- from the label `err_close_dmabuf` on
abbrev import_undo : Device → (self dmabuf : ℕ) → M Made
import_undo d self dmabuf = do call (Call.close dmabuf); call (Call.free self); pure (none, d)

abbrev import_bo :
    Device → Option ℕ → BoFlags → Bool → (self dmabuf : ℕ) → Out → (gpu_mapping : ℕ) → Option ℕ → Bo
import_bo d vm f external self dmabuf o gpu_mapping cpu = record {
  self = self;
  exclusive_vm = vm;
  size = o.second * page_size % 2 ^ 64;
  flags = bo_init_flags d (record f { imported = f.imported || external });
  handle = next_handle d;
  refcnt = 1;
  gpu_va = gpu_mapping;
  cpu_ptr = cpu;
  gpu_mapping = some gpu_mapping;
  dmabuf_fd = some dmabuf;
  owns_cpu_mapping = elim cpu [ none ↦ false | some _ ↦ true ];
  same_va = o.flags.same_va || o.flags.need_mmap;
}

-- the mapping for the CPU, once the GPU has one
unfoldable pub import_cpu :
    Device → Option ℕ → BoFlags → Bool → (self dmabuf : ℕ) → Out → (gpu_mapping : ℕ) → M Made
import_cpu d vm f external self dmabuf o gpu =
    let size = o.second * page_size % 2 ^ 64 in
    let d' = record d { next_handle = next_handle d } in
    elim f.no_mmap [
      | true ↦ pure (some (import_bo d vm f external self dmabuf o gpu none), d')
      | false ↦ do
        m ← call (Call.mmap_dmabuf dmabuf size)
        elim m [
          | ok p ↦ pure (some (import_bo d vm f external self dmabuf o gpu (some p.value)), d')
          | fail e ↦ do
            call (Call.munmap gpu size)
            (if o.flags.same_va || o.flags.need_mmap
                then pure tt
                else call (Call.mem_free o.value) >> pure tt)
            import_undo d self dmabuf
        ]
    ]

unfoldable pub import_region : Device → Option ℕ → BoFlags → Bool → (self dmabuf : ℕ) → M Made
unfolding import_cpu
import_region d vm f external self dmabuf = do
  r ← call (Call.mem_import dmabuf (import_flags f))
  elim r [
    | fail e ↦ import_undo d self dmabuf
    | ok o ↦ do
      m ← call (Call.mmap (o.second * page_size % 2 ^ 64) Kernel.rd_wr (Kernel.at o.value))
      elim m [
        | ok p ↦ import_cpu d vm f external self dmabuf o p.value
        | fail e ↦ do call (Call.mem_free o.value); import_undo d self dmabuf
      ]
  ]

-- kbase_kmod_import_dmabuf; the code makes no use of its `size`
unfoldable pub import_dmabuf : Device → Option ℕ → (fd : ℕ) → BoFlags → Bool → M Made
unfolding import_region
import_dmabuf d vm fd f external = do
  a ← call Call.alloc
  elim a [
    | fail e ↦ pure (none, d)
    | ok b ↦ do
      n ← call (Call.dup fd)
      elim n [
        | fail e ↦ do call (Call.free b.value); pure (none, d)
        | ok dmabuf ↦ import_region d vm f external b.value dmabuf.value
      ]
  ]
