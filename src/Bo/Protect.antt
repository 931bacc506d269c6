-- ===== src/Bo/Protect.antt =====
-- Memory that the GPU may execute is never memory that the GPU may write.
use pan_vk_kbase.Prelude.{
  ℕ, ◌≡◌, ◌||◌, ◌&&◌, not, Bool, true, Option, none, some, [], ◌∷◌, arith, Bool-cases, inl, inr,
}
use pan_vk_kbase.Flags.{BoFlags}
use pan_vk_kbase.Kernel.{Kernel, Log, Call}
use pan_vk_kbase.Device.{Device}
use pan_vk_kbase.Dmabuf.{import_flags, import_dmabuf}
use pan_vk_kbase.Bo.{to_kbase_mem_flags, bo_alloc_dmabuf, bo_alloc_kbase, bo_alloc_from, bo_alloc}

abbrev is_protected : Call → Bool
is_protected (Call.mem_alloc r) = not (r.flags.prot_gpu_ex && r.flags.prot_gpu_wr)
is_protected (Call.mem_alloc_ex r) = not (r.flags.prot_gpu_ex && r.flags.prot_gpu_wr)
is_protected (Call.mem_import n f) = not f.prot_gpu_ex
is_protected _ = true

-- no request of the log asks for memory that is executable and writable to the GPU
abbrev pub all_protected : Log → Bool
all_protected [] = true
all_protected ((c, r) ∷ l) = is_protected c && all_protected l

module _ (d : Device) (k : Kernel) where
  all_protected-bo_alloc_kbase :
      (vm : Option ℕ) (size : ℕ) (f : BoFlags) (l : Log)
      → all_protected (bo_alloc_kbase d vm size f k l).1 ≡ all_protected l
  unfolding bo_alloc_kbase to_kbase_mem_flags
  all_protected-bo_alloc_kbase vm size f l = ground arith

  all_protected-import_dmabuf :
      (n : ℕ) (f : BoFlags) (ext : Bool) (l : Log)
      → all_protected (import_dmabuf d none n f ext k l).1 ≡ all_protected l
  unfolding import_dmabuf import_flags
  all_protected-import_dmabuf n f ext l = ground arith

  all_protected-bo_alloc_dmabuf :
      (heap_fd size : ℕ) (f : BoFlags) (l : Log)
      → all_protected (bo_alloc_dmabuf d heap_fd size f k l).1 ≡ all_protected l
  unfolding bo_alloc_dmabuf
  all_protected-bo_alloc_dmabuf heap_fd size f l = grind (arith, all_protected-import_dmabuf)

  all_protected-bo_alloc_from :
      (heap vm : Option ℕ) (size : ℕ) (f : BoFlags) (l : Log)
      → all_protected (bo_alloc_from heap d vm size f k l).1 ≡ all_protected l
  unfolding bo_alloc_from
  all_protected-bo_alloc_from (some h) none size f l =
      elim (Bool-cases (f.executable || f.alloc_on_fault || f.csf_event)) [
        | inl t ↦ rw t (all_protected-bo_alloc_kbase none size f l)
        | inr t ↦ rw t (all_protected-bo_alloc_dmabuf h size f l)
      ]
  all_protected-bo_alloc_from none none size f l = all_protected-bo_alloc_kbase none size f l
  all_protected-bo_alloc_from (some h) (some vm) size f l =
      all_protected-bo_alloc_kbase (some vm) size f l
  all_protected-bo_alloc_from none (some vm) size f l =
      all_protected-bo_alloc_kbase (some vm) size f l

  -- kbase_kmod_bo_alloc makes no request for memory that is executable and writable to the GPU,
  -- whatever flags it is given.
  all_protected-bo_alloc :
      (vm : Option ℕ) (size : ℕ) (f : BoFlags) (l : Log)
      → all_protected (bo_alloc d vm size f k l).1 ≡ all_protected l
  unfolding bo_alloc
  all_protected-bo_alloc vm size f l = all_protected-bo_alloc_from d.dma_heap_fd vm size f l
