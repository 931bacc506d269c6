-- ===== src/Pool.antt =====
-- The driver's memory pools, mesa_src/mesa_vulkan/panvk_mempool.c: memory is cut from the front of a
-- transient private buffer, behind what was cut before. The reference counts of the buffers stand
-- in a store of their own, by the buffer's address, since pools and their users share the buffers.
-- The lists of free buffers that a pool takes from and returns to are two different ones.
pub mod Free
pub mod Reset
pub mod Align
pub mod Backing
pub mod Room
pub mod Pieces
pub mod Disjoint
pub mod Safe
pub mod Run
pub mod Leak
pub mod Tests
use pan_vk_kbase.Prelude.{
  ℕ, zero, suc, ◌+◌, ◌-◌, ◌*◌, ◌/◌, ◌%◌, ◌^◌, Bool, true, false, not, ◌&&◌, ◌||◌, max, Option, none,
  some, List, [], ◌∷◌, ◌++◌, map, leb, ltb, ◌==◌, if◌then◌else◌,
}
use pan_vk_kbase.Flags.{BoFlags}
use pan_vk_kbase.Kernel.{Call, M, own_call, pure, ◌>>=◌, ◌>>◌}
use pan_vk_kbase.PrivBo.{PanvkDev, PrivBo, priv_bo_create, priv_bo_ref, priv_bo_unref}

-- ALIGN_POT on `w` bits, for an alignment that is a power of two
abbrev pub align_pot : (w x alignment : ℕ) → ℕ
align_pot w x a = (x + (a - 1)) % 2 ^ w / a * a

-- struct panvk_pool, with its properties and the contents of the free lists that it points to
pub record Pool : Type 0 where
  pub slab_size : ℕ
  pub create_flags : BoFlags
  pub owns_bos : Bool
  pub needs_locking : Bool
  pub bo_pool : Option (List PrivBo)
  pub big_bo_pool : Option (List PrivBo)
  pub bos : List PrivBo
  pub big_bos : List PrivBo
  pub bo_count : ℕ
  pub transient_bo : Option PrivBo
  pub transient_offset : ℕ

-- the reference count by the buffer's address
abbrev pub Refs : Type 0
Refs = ℕ → ℕ

abbrev pub set_ref : ℕ → ℕ → Refs → Refs
set_ref self n refs x = if x == self then n else refs x

-- the buffer with the count that it has now
abbrev pub counted : PrivBo → Refs → PrivBo
counted b refs = record b { refcnt = refs b.self }

-- the store after a reference was given up, by what is left of the buffer
abbrev pub after_unref : PrivBo → Refs → Option PrivBo → Refs
after_unref b refs none = set_ref b.self 0 refs
after_unref b refs (some b') = set_ref b.self b'.refcnt refs

-- panvk_priv_bo_unref
unfoldable pub unref : PanvkDev → PrivBo → Refs → M Refs
unfolding priv_bo_unref
unref dev b refs = do r ← priv_bo_unref dev (counted b refs); pure (after_unref b refs r)

unfoldable pub unref_opt : PanvkDev → Option PrivBo → Refs → M Refs
unfolding unref
unref_opt dev none refs = pure refs
unref_opt dev (some b) refs = unref dev b refs

-- panvk_bo_pool_cleanup, and the loops of panvk_pool_reset
unfoldable pub unref_all : PanvkDev → List PrivBo → Refs → M Refs
unfolding unref
unref_all dev [] refs = pure refs
unref_all dev (b ∷ bs) refs = do refs' ← unref dev b refs; unref_all dev bs refs'

-- The first free buffer, where a whole slab is wanted.
abbrev pub take_free : (wanted slab : ℕ) → Option (List PrivBo) → Option (PrivBo × List PrivBo)
take_free wanted slab none = none
take_free wanted slab (some []) = none
take_free wanted slab (some (b ∷ bs)) = if wanted == slab then some (b, bs) else none

-- the first free big buffer that suffices
abbrev pub take_big : (wanted : ℕ) → List PrivBo → Option (PrivBo × List PrivBo)
take_big wanted [] = none
take_big wanted (b ∷ bs) =
    let rest = take_big wanted bs in
    if leb wanted b.bo.size
    then some (b, bs)
    else elim rest [ none ↦ none | some (c, cs) ↦ some (c, b ∷ cs) ]

abbrev pub take_big_opt : (wanted : ℕ) → Option (List PrivBo) → Option (PrivBo × List PrivBo)
take_big_opt wanted none = none
take_big_opt wanted (some bs) = take_big wanted bs

-- how much room there is behind what was cut
abbrev pub remaining : Option PrivBo → (offset : ℕ) → ℕ
remaining none offset = 0
remaining (some t) offset = (t.bo.size + 2 ^ 64 - offset) % 2 ^ 64

-- The lists of an owning pool: whole slabs in one, all else in the other.
abbrev pub keep_bo : PrivBo → Pool → Pool
keep_bo b p =
    let whole = b.bo.size == p.slab_size in
    record p {
      bos = if p.owns_bos && whole then p.bos ++ (b ∷ []) else p.bos;
      big_bos = if p.owns_bos && not whole then p.big_bos ++ (b ∷ []) else p.big_bos;
      bo_count = if p.owns_bos then (p.bo_count + 1) % 2 ^ 32 else p.bo_count;
    }

-- whether the new buffer becomes the transient one
abbrev pub is_better : (bo_sz sz : ℕ) → PrivBo → Pool → Bool
is_better bo_sz sz b p =
    ltb (remaining p.transient_bo p.transient_offset) ((b.bo.size + 2 ^ 64 - sz) % 2 ^ 64)
    && (p.owns_bos || leb bo_sz p.slab_size)

-- A sharing pool gives up its reference to the old transient buffer.
unfoldable pub release_transient : (owns_bos : Bool) → PanvkDev → Option PrivBo → Refs → M Refs
unfolding unref_opt
release_transient true dev t refs = pure refs
release_transient false dev t refs = unref_opt dev t refs

-- by whether the buffer becomes the transient one
unfoldable pub settle_if :
    (better : Bool) → PanvkDev → PrivBo → Pool → Refs → M (Option PrivBo × Pool × Refs)
unfolding release_transient
settle_if false dev b p refs = pure (some b, p, refs)
settle_if true dev b p refs = do
  refs' ← release_transient p.owns_bos dev p.transient_bo refs
  pure (some b, record p { transient_bo = some b; transient_offset = 0 }, refs')

-- the end of panvk_pool_alloc_backing, once there is a buffer
unfoldable pub settle :
    PanvkDev → (bo_sz sz : ℕ) → PrivBo → Pool → Refs → M (Option PrivBo × Pool × Refs)
unfolding settle_if
settle dev bo_sz sz b p refs =
    settle_if (is_better bo_sz sz b (keep_bo b p)) dev b (keep_bo b p) refs

-- by the buffer that was made. That errno is set for host memory is left out.
unfoldable pub created_backing :
    Option PrivBo → PanvkDev → (bo_sz sz : ℕ) → Pool → Refs → M (Option PrivBo × Pool × Refs)
unfolding settle
created_backing none dev bo_sz sz p refs = pure (none, p, refs)
created_backing (some b) dev bo_sz sz p refs =
    settle dev bo_sz sz b p (set_ref b.self b.refcnt refs)

-- a new buffer
unfoldable pub create_backing :
    PanvkDev → (bo_sz sz : ℕ) → Pool → Refs → M (Option PrivBo × Pool × Refs)
unfolding priv_bo_create created_backing
create_backing dev bo_sz sz p refs = do
  r ← priv_bo_create dev bo_sz p.create_flags
  created_backing r.1 dev bo_sz sz p refs

unfoldable pub big_backing :
    Option (PrivBo × List PrivBo)
    → PanvkDev
    → (bo_sz sz : ℕ) → Pool
    → Refs
    → M (Option PrivBo × Pool × Refs)
unfolding create_backing settle
big_backing none dev bo_sz sz p refs = create_backing dev bo_sz sz p refs
big_backing (some (b, bs)) dev bo_sz sz p refs =
    settle dev bo_sz sz b (record p { big_bo_pool = some bs }) refs

unfoldable pub free_backing :
    Option (PrivBo × List PrivBo)
    → PanvkDev
    → (bo_sz sz : ℕ) → Pool
    → Refs
    → M (Option PrivBo × Pool × Refs)
unfolding big_backing settle
free_backing none dev bo_sz sz p refs =
    big_backing (take_big_opt bo_sz p.big_bo_pool) dev bo_sz sz p refs
free_backing (some (b, bs)) dev bo_sz sz p refs =
    settle dev bo_sz sz b (record p { bo_pool = some bs }) refs

-- the lowest bit of a word that is set, of the `n` lowest
abbrev pub low_bit : (n v : ℕ) → ℕ
low_bit zero v = 0
low_bit (suc n) v = let rest = low_bit n (v / 2) in if v % 2 == 1 then 1 else 2 * rest

-- panvk_get_gpu_page_size
abbrev pub gpu_page_size : PanvkDev → ℕ
gpu_page_size dev = low_bit 64 dev.vm.pgsize_bitmap

-- the size of a backing
abbrev pub backing_size : PanvkDev → (sz : ℕ) → Pool → ℕ
backing_size dev sz p = align_pot 64 (max p.slab_size sz) (gpu_page_size dev)

-- panvk_pool_alloc_backing
unfoldable pub alloc_backing : PanvkDev → (sz : ℕ) → Pool → Refs → M (Option PrivBo × Pool × Refs)
unfolding free_backing
alloc_backing dev sz p refs =
    let bo_sz = backing_size dev sz p in
    free_backing (take_free bo_sz p.slab_size p.bo_pool) dev bo_sz sz p refs

-- struct panvk_priv_mem
pub record PrivMem : Type 0 where
  pub bo : Option PrivBo
  pub owned_by_pool : Bool
  pub offset : ℕ

-- struct panvk_pool_alloc_info
pub record AllocInfo : Type 0 where
  pub size : ℕ
  pub alignment : ℕ

-- Memory of shared buffers starts on a cache line of `atom` bytes.
abbrev pub used_alignment : (atom : ℕ) → Pool → AllocInfo → ℕ
used_alignment atom p i =
    if not p.owns_bos && p.create_flags.wb_mmap then max atom i.alignment else i.alignment

abbrev pub is_same : PrivBo → Option PrivBo → Bool
is_same b none = false
is_same b (some t) = t.self == b.self

-- what is cut, and the count of a shared buffer
unfoldable pub cut : (offset size : ℕ) → Option PrivBo → Pool → Refs → PrivMem × Pool × Refs
unfolding priv_bo_ref
cut offset size none p refs =
    (record { bo = none; owned_by_pool = p.owns_bos; offset = offset }, p, refs)
cut offset size (some b) p refs = (
  record { bo = some b; owned_by_pool = p.owns_bos; offset = offset },
  if is_same b p.transient_bo then record p { transient_offset = (offset + size) % 2 ^ 32 } else p,
  if is_same b p.transient_bo && not p.owns_bos
      then set_ref b.self (priv_bo_ref (counted b refs)).refcnt refs
      else refs,
)

-- whether the memory fits behind what was cut from the transient buffer
abbrev pub fits : (offset size : ℕ) → Option PrivBo → Bool
fits offset size none = false
fits offset size (some t) = leb (offset + size) t.bo.size

-- by whether it fits
unfoldable pub alloc_fitting :
    (fit : Bool) → PanvkDev → (offset size : ℕ) → Pool → Refs → M (PrivMem × Pool × Refs)
unfolding alloc_backing cut
alloc_fitting true dev offset size p refs = pure (cut offset size p.transient_bo p refs)
alloc_fitting false dev offset size p refs = do
  (b, p', refs') ← alloc_backing dev size p refs
  pure (cut 0 size b p' refs')

abbrev pub lock_if : Bool → Call → M (Unit {0})
lock_if true c = own_call c
lock_if false c = pure tt

-- where the next memory would start
abbrev pub next_offset : (atom : ℕ) → Pool → AllocInfo → ℕ
next_offset atom p i = align_pot 32 p.transient_offset (used_alignment atom p i)

-- panvk_pool_alloc_mem
unfoldable pub alloc_mem :
    PanvkDev → (atom : ℕ) → AllocInfo → Pool → Refs → M (PrivMem × Pool × Refs)
unfolding alloc_fitting
alloc_mem dev atom i p refs = do
  lock_if p.needs_locking Call.lock
  let offset = next_offset atom p i
  r ← alloc_fitting (fits offset i.size p.transient_bo) dev offset i.size p refs
  lock_if p.needs_locking Call.unlock
  pure r
