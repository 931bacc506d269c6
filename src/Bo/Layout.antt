-- ===== src/Bo/Layout.antt =====
-- Size and addresses of an object that `bo_alloc` allocated itself, rather than from a dma-heap.
use pan_vk_kbase.Prelude.{
  ℕ, ◌+◌, ◌%◌, ◌^◌, ◌≤◌, ◌<◌, ◌≡◌, ◌≢◌, ◌||◌, Bool, true, false, Option, none, some, arith,
  if◌then◌else◌, ◌⊎◌,
}
use pan_vk_kbase.Flags.{BoFlags}
use pan_vk_kbase.Kernel.{Kernel, Log}
use pan_vk_kbase.Device.{Device, Bo}
use pan_vk_kbase.Dmabuf.{import_dmabuf}
use pan_vk_kbase.Bo.{
  bo_alloc_dmabuf, bo_alloc_kbase, bo_alloc_from, bo_alloc, got, bo_mmap, bo_get_mmap_offset,
}

-- The size is the request rounded up to pages, and a mapping of a SAME_VA object is where the GPU
-- has it.
pub record IsLaidOut (size : ℕ) (b : Bo) : Type 0 where
  pub covers : size ≤ b.size
  pub tight : b.size < size + 4096
  pub paged : b.size % 4096 ≡ 0
  pub mapped : (b.same_va ≡ false) ⊎ (bo_mmap b none ≡ got (bo_get_mmap_offset b))

module _ (d : Device) (k : Kernel) where
  IsLaidOut-bo_alloc_kbase :
      (vm : Option ℕ) (size : ℕ) (f : BoFlags) (l : Log) (b : Bo)
      → size + 4095 < 2 ^ 64
      → (bo_alloc_kbase d vm size f k l).0.0 ≡ some b
      → IsLaidOut size b
  unfolding bo_alloc_kbase bo_mmap bo_get_mmap_offset
  IsLaidOut-bo_alloc_kbase vm size f l b h e = record {
    covers = ground arith;
    tight = ground arith;
    paged = ground arith;
    mapped = ground arith;
  }

  import_dmabuf-has_dmabuf :
      (n : ℕ) (f : BoFlags) (ext : Bool) (l : Log) (b : Bo)
      → (import_dmabuf d none n f ext k l).0.0 ≡ some b
      → b.dmabuf_fd ≢ none
  unfolding import_dmabuf
  import_dmabuf-has_dmabuf n f ext l b e = ground arith

  bo_alloc_dmabuf-has_dmabuf :
      (heap_fd size : ℕ) (f : BoFlags) (l : Log) (b : Bo)
      → (bo_alloc_dmabuf d heap_fd size f k l).0.0 ≡ some b
      → b.dmabuf_fd ≢ none
  unfolding bo_alloc_dmabuf
  bo_alloc_dmabuf-has_dmabuf heap_fd size f l b e = grind (arith, import_dmabuf-has_dmabuf)

  IsLaidOut-bo_alloc_by :
      (own : Bool) (heap_fd size : ℕ) (f : BoFlags) (l : Log) (b : Bo)
      → size + 4095 < 2 ^ 64
      → ((if own then bo_alloc_kbase d none size f else bo_alloc_dmabuf d heap_fd size f) k l).0.0
        ≡ some b
      → b.dmabuf_fd ≡ none
      → IsLaidOut size b
  IsLaidOut-bo_alloc_by true heap_fd size f l b fits e n =
      IsLaidOut-bo_alloc_kbase none size f l b fits e
  IsLaidOut-bo_alloc_by false heap_fd size f l b fits e n =
      absurd (bo_alloc_dmabuf-has_dmabuf heap_fd size f l b e n)

  IsLaidOut-bo_alloc_from :
      (heap vm : Option ℕ) (size : ℕ) (f : BoFlags) (l : Log) (b : Bo)
      → size + 4095 < 2 ^ 64
      → (bo_alloc_from heap d vm size f k l).0.0 ≡ some b
      → b.dmabuf_fd ≡ none
      → IsLaidOut size b
  unfolding bo_alloc_from
  IsLaidOut-bo_alloc_from (some h) none size f l b fits e n =
      IsLaidOut-bo_alloc_by (f.executable || f.alloc_on_fault || f.csf_event) h size f l b fits e n
  IsLaidOut-bo_alloc_from none none size f l b fits e n =
      IsLaidOut-bo_alloc_kbase none size f l b fits e
  IsLaidOut-bo_alloc_from (some h) (some vm) size f l b fits e n =
      IsLaidOut-bo_alloc_kbase (some vm) size f l b fits e
  IsLaidOut-bo_alloc_from none (some vm) size f l b fits e n =
      IsLaidOut-bo_alloc_kbase (some vm) size f l b fits e

  -- An object without a dma-buf that kbase_kmod_bo_alloc returned, for a size that does not run
  -- over 64 bits when rounded up, covers the size by less than a page too much, in whole pages;
  -- and it is no SAME_VA one, or mapping it gives its GPU address.
  pub bo_alloc-IsLaidOut :
      (vm : Option ℕ) (size : ℕ) (f : BoFlags) (l : Log) (b : Bo)
      → size + 4095 < 2 ^ 64
      → (bo_alloc d vm size f k l).0.0 ≡ some b
      → b.dmabuf_fd ≡ none
      → IsLaidOut size b
  unfolding bo_alloc
  bo_alloc-IsLaidOut vm size f l b fits e n =
      IsLaidOut-bo_alloc_from d.dma_heap_fd vm size f l b fits e n
