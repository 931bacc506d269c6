-- ===== src/DescriptorPool.antt =====
-- Pools of descriptor sets: the pool part of mesa_src/mesa_vulkan/panvk_vX_descriptor_set.c. A set is
-- known by its number in the pool. What is written to the descriptors, the references of layouts and
-- the reports to the application are left out; an assertion is no code.
pub mod Held
pub mod Run
pub mod Create
pub mod Life
pub mod Batch
pub mod Tests
use pan_vk_kbase.Prelude.{
  ℕ, zero, suc, ◌+◌, ◌-◌, ◌*◌, ◌/◌, ◌%◌, ◌^◌, Bool, true, false, not, ◌&&◌, ◌||◌, Option, none,
  some, List, [], ◌∷◌, ◌++◌, leb, ltb, ◌==◌, if◌then◌else◌,
}
use pan_vk_kbase.Kernel.{Call, Reply, ok, fail, M, call, own_call, pure, ◌>>=◌, ◌>>◌}
use pan_vk_kbase.PrivBo.{
  PanvkDev, PrivBo, VkResult, vk_success, vk_error_out_of_pool_memory, vk_error_fragmented_pool,
  priv_bo_unref,
}
use pan_vk_kbase.DescriptorLayout.{
  BindingLayout, Layout, is_dynamic, is_inline_block, stride_in, iub_desc_count, descriptor_size,
}

-- struct panvk_descriptor_set, the parts that the pool looks at; zeros when it is free
pub record DescriptorSet : Type 0 where
  pub desc_count : ℕ
  pub dev : ℕ
  pub host : ℕ

abbrev pub no_set : DescriptorSet
no_set = record { desc_count = 0; dev = 0; host = 0 }

-- where the buffer of a pool lies, for the GPU and for the CPU
pub record PoolBo : Type 0 where
  pub bo : PrivBo
  pub host : ℕ

-- struct panvk_descriptor_pool, with the bits of free_sets by their number. `heap` names its heap of
-- addresses, of util/vma.h, and `free_size` is what that heap has left.
pub record DescriptorPool : Type 0 where
  pub self : ℕ
  pub desc_bo : Option PoolBo
  pub host_only_mem : ℕ
  pub heap : ℕ
  pub free_size : ℕ
  pub free_sets : ℕ → Bool
  pub max_sets : ℕ
  pub sets : ℕ → DescriptorSet

abbrev pub set_bit : ℕ → Bool → (ℕ → Bool) → ℕ → Bool
set_bit i b f x = if x == i then b else f x

abbrev pub set_set : ℕ → DescriptorSet → (ℕ → DescriptorSet) → ℕ → DescriptorSet
set_set i s f x = if x == i then s else f x

-- A number of descriptors times PANVK_DESCRIPTOR_SIZE, on 32 bits.
abbrev pub descs_size : (num_descs : ℕ) → ℕ
descs_size n = n * descriptor_size % 2 ^ 32

-- the address of a set in the heap
abbrev pub heap_address : (host_only_mem : ℕ) → DescriptorSet → ℕ
heap_address mem s = if mem == 0 then s.dev else s.host

-- the range of a set, if it has one
unfoldable pub free_range : (is_empty : Bool) → DescriptorPool → DescriptorSet → M (Unit {0})
free_range true p s = pure tt
free_range false p s =
    own_call (Call.vma_free p.heap (heap_address p.host_only_mem s) (descs_size s.desc_count))

-- by whether the set is free already
unfoldable pub free_set_if : (is_free : Bool) → (set_idx : ℕ) → DescriptorPool → M DescriptorPool
unfolding free_range
free_set_if true i p = pure p
free_set_if false i p = do
  free_range ((p.sets i).desc_count == 0) p (p.sets i)
  pure (record p {
    free_size = p.free_size + descs_size (p.sets i).desc_count;
    free_sets = set_bit i true p.free_sets;
    sets = set_set i no_set p.sets;
  })

-- panvk_desc_pool_free_set
unfoldable pub free_set : (set_idx : ℕ) → DescriptorPool → M DescriptorPool
unfolding free_set_if
free_set i p = free_set_if (p.free_sets i) i p

-- The last binding of a layout has a variable count.
abbrev pub last_of : Layout → Option BindingLayout
last_of l = if l.binding_count == 0 then none else some (l.bindings (l.binding_count - 1))

abbrev pub with_variable : (count : ℕ) → BindingLayout → (num_descs : ℕ) → ℕ
with_variable count b n =
    if b.variable && not (is_dynamic b.type)
    then (if is_inline_block b.type
        then ((n + 2 ^ 32 - b.desc_count) % 2 ^ 32 + iub_desc_count count) % 2 ^ 32
        else ((n + 2 ^ 32 - b.desc_count * stride_in b % 2 ^ 32) % 2 ^ 32 + count * stride_in b)
          % 2 ^ 32)
    else n

-- how many descriptors a set of this layout has
unfoldable pub num_descs : Layout → (variable_count : ℕ) → ℕ
num_descs l count = elim (last_of l) [
  | none ↦ l.desc_count
  | some b ↦ with_variable count b l.desc_count
]

-- the lowest bit that is set from `i` on, of `n` bits
unfoldable pub first_free : (n i : ℕ) → (ℕ → Bool) → Option ℕ
first_free zero i f = none
first_free (suc n) i f = let rest = first_free n (suc i) f in if f i then some i else rest

-- __bitset_ffs, over BITSET_WORDS(max_sets) words of 32 bits
abbrev pub bitset_ffs : DescriptorPool → Option ℕ
unfolding first_free
bitset_ffs p = first_free ((p.max_sets + 31) / 32 * 32) 0 p.free_sets

-- the set at an address of the heap
abbrev pub set_at : Option PoolBo → (num_descs address : ℕ) → DescriptorSet
set_at none n a = record { desc_count = n; dev = 0; host = a }
set_at (some b) n a = record {
  desc_count = n;
  dev = a;
  host = (b.host + a + 2 ^ 64 - b.bo.dev_addr) % 2 ^ 64;
}

pub record Allocation : Type 0 where
  pub result : VkResult
  pub set_idx : Option ℕ
  pub pool : DescriptorPool

abbrev pub refused : VkResult → DescriptorPool → Allocation
refused r p = record { result = r; set_idx = none; pool = p }

-- the set with this number and this range
abbrev pub taken : (set_idx num_descs address : ℕ) → DescriptorPool → Allocation
taken i n a p = record {
  result = vk_success;
  set_idx = some i;
  pool = record p {
    free_size = p.free_size - descs_size n;
    free_sets = set_bit i false p.free_sets;
    sets = set_set i (set_at p.desc_bo n a) p.sets;
  };
}

-- by the reply of the heap
abbrev pub taken_at : Reply → (set_idx num_descs : ℕ) → DescriptorPool → Allocation
taken_at (fail e) i n p = refused vk_error_fragmented_pool p
taken_at (ok o) i n p = taken i n o.value p

-- by whether the set has no descriptors
unfoldable pub allocate_range :
    (is_empty : Bool) → (set_idx num_descs : ℕ) → DescriptorPool → M Allocation
allocate_range true i n p = pure (taken i n 0 p)
allocate_range false i n p = do
  a ← call (Call.vma_alloc p.heap (descs_size n) descriptor_size)
  pure (taken_at a i n p)

-- by the first set that is free, and whether there is less room than wanted
unfoldable pub allocate_first :
    Option ℕ → (too_small : Bool) → (num_descs : ℕ) → DescriptorPool → M Allocation
unfolding allocate_range
allocate_first none too_small n p = pure (refused vk_error_out_of_pool_memory p)
allocate_first (some i) true n p = pure (refused vk_error_out_of_pool_memory p)
allocate_first (some i) false n p = allocate_range (n == 0) i n p

-- panvk_desc_pool_allocate_set
unfoldable pub allocate_set : Layout → (variable_count : ℕ) → DescriptorPool → M Allocation
unfolding num_descs allocate_first
allocate_set l count p =
    let n = num_descs l count in allocate_first (bitset_ffs p) (ltb p.free_size (descs_size n)) n p

-- panvk_per_arch(FreeDescriptorSets), on the sets that are none VK_NULL_HANDLE
unfoldable pub free_sets : List ℕ → DescriptorPool → M DescriptorPool
unfolding free_set
free_sets [] p = pure p
free_sets (i ∷ is) p = do p' ← free_set i p; free_sets is p'

-- `n` sets from a number on
unfoldable pub free_from : (n i : ℕ) → DescriptorPool → M DescriptorPool
unfolding free_set
free_from zero i p = pure p
free_from (suc n) i p = do p' ← free_set i p; free_from n (suc i) p'

-- BITSET_SET_COUNT from 0
abbrev pub set_count : (n : ℕ) → (ℕ → Bool) → ℕ → Bool
set_count n f x = ltb x n || f x

-- panvk_per_arch(ResetDescriptorPool)
unfoldable pub reset_pool : DescriptorPool → M DescriptorPool
unfolding free_from
reset_pool p = do
  p' ← free_from p.max_sets 0 p
  pure (record p' { free_sets = set_count p'.max_sets p'.free_sets })

-- what is asked for: a layout and a variable count
pub record Request : Type 0 where
  pub layout : Layout
  pub variable_count : ℕ

-- the result of the batch: the sets, or what failed
abbrev pub Allocated : Type 0
Allocated = (VkResult × List ℕ) × DescriptorPool

-- by the set at hand: the sets so far are freed when there is none
unfoldable pub allocate_next :
    Option ℕ
    → VkResult
    → (so_far : List ℕ) → ((so_far : List ℕ) → DescriptorPool → M Allocated)
    → DescriptorPool
    → M Allocated
unfolding free_sets
allocate_next none r so_far go p = do p' ← free_sets so_far p; pure ((r, []), p')
allocate_next (some i) r so_far go p = go (so_far ++ (i ∷ [])) p

-- panvk_per_arch(AllocateDescriptorSets), with the sets so far
unfoldable pub allocate_sets : List Request → (so_far : List ℕ) → DescriptorPool → M Allocated
unfolding allocate_next allocate_set
allocate_sets [] so_far p = pure ((vk_success, so_far), p)
allocate_sets (r ∷ rs) so_far p = do
  a ← allocate_set r.layout r.variable_count p
  allocate_next a.set_idx a.result so_far (allocate_sets rs) a.pool
