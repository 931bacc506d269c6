-- ===== src/Kernel/Ledger.antt =====
-- What a process holds after a log of calls, by the rules that kbase_kmod.c states for itself:
-- MEM_FREE and munmap() release, MEM_FREE takes addresses and pending cookies alike, and the mmap()
-- of a SAME_VA region turns the region into the mapping, so that munmap() frees it.
use pan_vk_kbase.Prelude.{
  ℕ, ◌+◌, ◌-◌, ◌≡◌, arith, Bool, true, false, ◌&&◌, ◌||◌, Option, none, some, [], ◌∷◌, ◌==◌,
  if◌then◌else◌,
}
use pan_vk_kbase.Kernel
use pan_vk_kbase.Kernel.{Call, Out, Log, ok, fail}

pub data Kind : Type 0 where
  memory fd region mapping group queue heap kcpu mutex range : Kind

abbrev code : Kind → ℕ
code memory = 0
code fd = 1
code region = 2
code mapping = 3
code group = 4
code queue = 5
code heap = 6
code kcpu = 7
code mutex = 8
code range = 9

-- one if the two name the same resource
unfoldable pub one : Kind → ℕ → Kind → ℕ → ℕ
one a x b y = if (code a == code b) && (x == y) then 1 else 0

abbrev pub weight : Option (Kind × ℕ) → Kind → ℕ → ℕ
weight none κ x = 0
weight (some (a, y)) κ x = one a y κ x

-- what a call that succeeds acquires
abbrev pub acquired : Call → Out → Option (Kind × ℕ)
acquired (Call.mmap _ _ _) o = some (mapping, o.value)
acquired (Call.mmap_placed _ _ _ _) o = some (mapping, o.value)
acquired (Call.mmap_reserve _ _) o = some (mapping, o.value)
acquired (Call.mmap_dmabuf _ _) o = some (mapping, o.value)
acquired (Call.group_create _) o = some (group, o.value)
acquired (Call.group_create_1_6 _) o = some (group, o.value)
acquired (Call.queue_register va _ _) o = some (queue, va)
acquired (Call.heap_init _) o = some (heap, o.value)
acquired (Call.mem_alloc _) o = some (region, o.value)
acquired (Call.mem_alloc_ex _) o = some (region, o.value)
acquired (Call.mem_alias _ _ _ _) o = some (region, o.value)
acquired (Call.mem_import _ _) o = some (region, o.value)
acquired (Call.dma_heap_alloc _ _) o = some (fd, o.value)
acquired (Call.dup _) o = some (fd, o.value)
acquired (Call.open_dma_heap _) o = some (fd, o.value)
acquired Call.kcpu_create o = some (kcpu, o.value)
acquired (Call.kcpu_enqueue_fence _) o = elim o.fd [ none ↦ none | some n ↦ some (fd, n) ]
acquired Call.alloc o = some (memory, o.value)
acquired Call.open_mali o = some (fd, o.value)
acquired (Call.vma_alloc _ _ _) o = some (range, o.value)
acquired (Call.vma_alloc_at _ a _) o = some (range, a)
acquired Call.lock o = some (mutex, 0)
acquired _ o = none

-- what a call gives back. The code looks at no reply of these calls but to report it.
abbrev pub released : Call → Option (Kind × ℕ)
released (Call.munmap a _) = some (mapping, a)
released (Call.group_terminate g) = some (group, g)
released (Call.queue_terminate va) = some (queue, va)
released (Call.heap_term va) = some (heap, va)
released (Call.mem_free va) = some (region, va)
released (Call.close n) = some (fd, n)
released (Call.kcpu_delete i) = some (kcpu, i)
released (Call.free a) = some (memory, a)
released (Call.vma_free _ a _) = some (range, a)
released Call.unlock = some (mutex, 0)
released _ = none

-- whether a successful call made a SAME_VA region at `off`; `none` if it made no region there
abbrev region_at : Call → Out → ℕ → Option Bool
region_at (Call.mem_alloc _) o off = if o.value == off then some o.flags.same_va else none
region_at (Call.mem_alloc_ex _) o off = if o.value == off then some o.flags.same_va else none
region_at (Call.mem_alias _ _ _ _) o off = if o.value == off then some true else none
region_at (Call.mem_import _ _) o off =
    if o.value == off then some (o.flags.same_va || o.flags.need_mmap) else none
region_at _ o off = none

-- whether the region last made at `off` is a SAME_VA one
abbrev pub same_va_at : Log → ℕ → Bool
same_va_at [] off = false
same_va_at ((c, fail e) ∷ l) off = same_va_at l off
same_va_at ((c, ok o) ∷ l) off = elim (region_at c o off) [ none ↦ same_va_at l off | some b ↦ b ]

-- the mapping that a successful mmap() with MAP_FIXED replaces
abbrev pub replaced : Call → Option (Kind × ℕ)
replaced (Call.mmap_reserve a _) = some (mapping, a)
replaced (Call.mmap_placed a _ _ _) = some (mapping, a)
replaced _ = none

-- the region that a successful mmap() turns into its mapping
abbrev pub consumed : Call → Log → Option (Kind × ℕ)
consumed (Call.mmap _ _ (Kernel.at off)) l = if same_va_at l off then some (region, off) else none
consumed (Call.mmap_placed _ _ _ (Kernel.at off)) l =
    if same_va_at l off then some (region, off) else none
consumed _ l = none

-- how many resources of kind `κ` and name `x` are held
abbrev pub held : Log → Kind → ℕ → ℕ
held [] κ x = 0
held ((c, fail e) ∷ l) κ x = held l κ x - weight (released c) κ x
held ((c, ok o) ∷ l) κ x =
    held l κ x
    - weight (replaced c) κ x
    + weight (acquired c o) κ x
    - weight (released c) κ x
    - weight (consumed c l) κ x

pub one_self : (a : Kind) (x : ℕ) → one a x a x ≡ 1
unfolding one
one_self a x = ground arith
