-- ===== src/Buffer/Copy.antt =====
-- The CPU path of panvk_per_arch(CmdCopyBuffer2) in mesa_src/mesa_vulkan/panvk_vX_cmd_meta.c, which
-- copies small regions while the command is recorded. The memory of the process is a function from
-- addresses to bytes. The one instruction that the path records does nothing for the copy and is
-- left out, and so is the GPU path.
use pan_vk_kbase.Prelude.{
  ℕ, zero, suc, ◌+◌, ◌-◌, ◌*◌, ◌%◌, ◌^◌, ◌<◌, ◌≤◌, ◌≡◌, ◌⊎◌, refl, sym, ap, ◌∙◌, true, not, ◌&&◌,
  Option, none, some, List, [], ◌∷◌, leb, ltb, ◌==◌, if◌then◌else◌, arith,
}
use pan_vk_kbase.Pan.Memory.{read_from}
use pan_vk_kbase.Buffer.{Buffer}

-- VkBufferCopy2
pub record Region : Type 0 where
  pub src_offset : ℕ
  pub dst_offset : ℕ
  pub size : ℕ

-- memcpy() of areas that do not overlap
abbrev pub memcpy : (dst src size : ℕ) → (ℕ → ℕ) → ℕ → ℕ
memcpy dst src size mem a = if leb dst a && ltb a (dst + size) then mem (src + (a - dst)) else mem a

-- how much is to be copied
abbrev pub total_size : List Region → ℕ
total_size [] = 0
total_size (r ∷ rs) = (r.size + total_size rs) % 2 ^ 64

-- the loop over the regions
unfoldable pub copy_regions : (src dst : ℕ) → List Region → (ℕ → ℕ) → ℕ → ℕ
copy_regions src dst [] mem = mem
copy_regions src dst (r ∷ rs) mem =
    copy_regions src dst rs (memcpy (dst + r.dst_offset) (src + r.src_offset) r.size mem)

-- The memory after the recording, or `none` where the copy is left to the GPU.
unfoldable pub cmd_copy_buffer : (src dst : Buffer) → List Region → (ℕ → ℕ) → Option (ℕ → ℕ)
unfolding copy_regions
cmd_copy_buffer src dst rs mem =
    if ltb (total_size rs) (16 * 1024 * 1024) && not (src.host_ptr == 0) && not (dst.host_ptr == 0)
    then some (copy_regions src.host_ptr dst.host_ptr rs mem)
    else none

-- Two areas of memory do not overlap.
abbrev pub IsApart : (a n b m : ℕ) → Type 0
IsApart a n b m = (a + n ≤ b) ⊎ (b + m ≤ a)

-- The area is apart from where each region goes.
abbrev pub IsUntouched : (a n dst : ℕ) → List Region → Type 0
IsUntouched a n dst [] = Unit {0}
IsUntouched a n dst (r ∷ rs) = IsApart a n (dst + r.dst_offset) r.size × IsUntouched a n dst rs

abbrev pub AreUntouched : (src dst : ℕ) → (from : Region) → List Region → Type 0
AreUntouched src dst w [] = Unit {0}
AreUntouched src dst w (r ∷ rs) =
    IsApart (src + r.src_offset) r.size (dst + w.dst_offset) w.size × AreUntouched src dst w rs

-- No region goes to where a later one goes, or to where it or a later one comes from.
abbrev pub AreApart : (src dst : ℕ) → List Region → Type 0
AreApart src dst [] = Unit {0}
AreApart src dst (r ∷ rs) =
    IsUntouched (dst + r.dst_offset) r.size dst rs
    × AreUntouched src dst r (r ∷ rs)
    × AreApart src dst rs

-- Each region has arrived.
abbrev pub AreCopied : (src dst : ℕ) → List Region → (before after : ℕ → ℕ) → Type 0
AreCopied src dst [] mem mem' = Unit {0}
AreCopied src dst (r ∷ rs) mem mem' =
    (read_from mem' (dst + r.dst_offset) r.size ≡ read_from mem (src + r.src_offset) r.size)
    × AreCopied src dst rs mem mem'

memcpy-outside :
    (dst src size : ℕ) (mem : ℕ → ℕ) (a : ℕ)
    → (a < dst) ⊎ (dst + size ≤ a)
    → memcpy dst src size mem a ≡ mem a
memcpy-outside dst src size mem a h = ground (arith, h)

memcpy-inside :
    (dst src size : ℕ) (mem : ℕ → ℕ) (i : ℕ)
    → i < size
    → memcpy dst src size mem (dst + i) ≡ mem (src + i)
memcpy-inside dst src size mem i h =
    let e : dst + i - dst ≡ i = omega arith in
    let t : leb dst (dst + i) && ltb (dst + i) (dst + size) ≡ true = ground (arith, h) in
    rw (t, e) refl

read_from-apart :
    (dst src size : ℕ) (mem : ℕ → ℕ) (a n : ℕ)
    → IsApart a n dst size
    → read_from (memcpy dst src size mem) a n ≡ read_from mem a n
read_from-apart dst src size mem a zero h = refl
read_from-apart dst src size mem a (suc n) h =
    rw
      (
        memcpy-outside dst src size mem a (omega (arith, h)),
        read_from-apart dst src size mem (suc a) n (omega (arith, h)),
      )
      refl

read_from-memcpy :
    (dst src size : ℕ) (mem : ℕ → ℕ) (a b i n : ℕ)
    → a ≡ dst + i
    → b ≡ src + i
    → i + n ≤ size
    → read_from (memcpy dst src size mem) a n ≡ read_from mem b n
read_from-memcpy dst src size mem a b i zero e f h = refl
read_from-memcpy dst src size mem a b i (suc n) e f h =
    let m = memcpy dst src size mem in
    let head : m a ≡ mem b =
      ap m e ∙ memcpy-inside dst src size mem i (omega arith) ∙ ap mem (sym f) in
    rw
      (
        head,
        read_from-memcpy dst src size mem (suc a) (suc b) (suc i) n (omega arith) (omega arith)
            (omega arith),
      )
      refl

-- An area that no region goes to keeps its bytes.
copy_regions-untouched :
    (src dst : ℕ) (rs : List Region) (mem : ℕ → ℕ) (a n : ℕ)
    → IsUntouched a n dst rs
    → read_from (copy_regions src dst rs mem) a n ≡ read_from mem a n
unfolding copy_regions
copy_regions-untouched src dst [] mem a n h = refl
copy_regions-untouched src dst (r ∷ rs) mem a n h =
    copy_regions-untouched src dst rs (memcpy (dst + r.dst_offset) (src + r.src_offset) r.size mem)
      a n h.1
    ∙ read_from-apart (dst + r.dst_offset) (src + r.src_offset) r.size mem a n h.0

AreCopied-memcpy :
    (src dst : ℕ) (w : Region) (rs : List Region) (mem mem' : ℕ → ℕ)
    → AreUntouched src dst w rs
    → AreCopied src dst rs (memcpy (dst + w.dst_offset) (src + w.src_offset) w.size mem) mem'
    → AreCopied src dst rs mem mem'
AreCopied-memcpy src dst w [] mem mem' u c = tt
AreCopied-memcpy src dst w (r ∷ rs) mem mem' u c = (
  c.0
      ∙ read_from-apart (dst + w.dst_offset) (src + w.src_offset) w.size mem (src + r.src_offset)
          r.size u.0,
  AreCopied-memcpy src dst w rs mem mem' u.1 c.1,
)

copy_regions-AreCopied :
    (src dst : ℕ) (rs : List Region) (mem : ℕ → ℕ)
    → AreApart src dst rs
    → AreCopied src dst rs mem (copy_regions src dst rs mem)
unfolding copy_regions
copy_regions-AreCopied src dst [] mem h = tt
copy_regions-AreCopied src dst (r ∷ rs) mem h =
    let mem1 = memcpy (dst + r.dst_offset) (src + r.src_offset) r.size mem in
    let mem' = copy_regions src dst rs mem1 in
    (
      copy_regions-untouched src dst rs mem1 (dst + r.dst_offset) r.size h.0
          ∙ read_from-memcpy (dst + r.dst_offset) (src + r.src_offset) r.size mem
              (dst + r.dst_offset) (src + r.src_offset) 0 r.size (omega arith) (omega arith)
              (omega arith),
      AreCopied-memcpy src dst r rs mem mem' h.1.1 (copy_regions-AreCopied src dst rs mem1 h.2),
    )

-- A copy of less than 16 MiB between two buffers with host pointers is done by the CPU: where no
-- region goes to where a later one goes, or to where it or a later one comes from, each arrives
-- whole, and an area that no region goes to keeps its bytes.
pub cmd_copy_buffer-AreCopied :
    (src dst : Buffer) (rs : List Region) (mem : ℕ → ℕ) (a n : ℕ)
    → total_size rs < 16 * 1024 * 1024
    → 0 < src.host_ptr
    → 0 < dst.host_ptr
    → AreApart src.host_ptr dst.host_ptr rs
    → IsUntouched a n dst.host_ptr rs
    → (mem' : ℕ → ℕ) × (cmd_copy_buffer src dst rs mem ≡ some mem')
      × AreCopied src.host_ptr dst.host_ptr rs mem mem'
      × (read_from mem' a n ≡ read_from mem a n)
unfolding cmd_copy_buffer
cmd_copy_buffer-AreCopied src dst rs mem a n small s d apart out = (
  copy_regions src.host_ptr dst.host_ptr rs mem,
  ground (arith, small, s, d),
  copy_regions-AreCopied src.host_ptr dst.host_ptr rs mem apart,
  copy_regions-untouched src.host_ptr dst.host_ptr rs mem a n out,
)
