-- ===== src/Flags.antt =====
-- Flag words of mesa_src/lib/mesa_kmod/kbase_kmod.c and pan_kmod.h. A word is the set of its named
-- bits, one Boolean to a bit: the kernel header that gives the BASE_MEM_* bits their positions is
-- no part of the repository, and the code only sets, clears and tests single bits.
use pan_vk_kbase.Prelude.{Bool, false}

-- BASE_MEM_*, as `to_kbase_mem_flags`, the import and alias requests and the kernel's replies use it
pub record MemFlags : Type 0 where
  pub prot_cpu_rd : Bool
  pub prot_cpu_wr : Bool
  pub prot_gpu_rd : Bool
  pub prot_gpu_wr : Bool
  pub prot_gpu_ex : Bool
  pub coherent_local : Bool
  pub coherent_system : Bool
  pub same_va : Bool
  pub need_mmap : Bool
  pub uncached_gpu : Bool
  pub cached_cpu : Bool
  pub grow_on_gpf : Bool
  pub csf_event : Bool
  pub import_shared : Bool

abbrev pub no_mem_flags : MemFlags
no_mem_flags = record {
  prot_cpu_rd = false;
  prot_cpu_wr = false;
  prot_gpu_rd = false;
  prot_gpu_wr = false;
  prot_gpu_ex = false;
  coherent_local = false;
  coherent_system = false;
  same_va = false;
  need_mmap = false;
  uncached_gpu = false;
  cached_cpu = false;
  grow_on_gpf = false;
  csf_event = false;
  import_shared = false;
}

-- PAN_KMOD_BO_FLAG_*
pub record BoFlags : Type 0 where
  pub executable : Bool
  pub alloc_on_fault : Bool
  pub no_mmap : Bool
  pub exported : Bool
  pub imported : Bool
  pub gpu_uncached : Bool
  pub wb_mmap : Bool
  pub io_coherent : Bool
  pub csf_event : Bool

abbrev pub no_bo_flags : BoFlags
no_bo_flags = record {
  executable = false;
  alloc_on_fault = false;
  no_mmap = false;
  exported = false;
  imported = false;
  gpu_uncached = false;
  wb_mmap = false;
  io_coherent = false;
  csf_event = false;
}
