-- ===== src/DescriptorPool/Held.antt =====
-- What the sets of a pool hold of its heap of addresses.
use pan_vk_kbase.Prelude.{
  ℕ, zero, suc, ◌+◌, ◌-◌, ◌*◌, ◌/◌, ◌≤◌, ◌<◌, ◌≡◌, ◌≢◌, refl, sym, ap, ◌∙◌, subst, Bool, true,
  false, ◌||◌, Option, none, some, ◌∷◌, ltb, ◌==◌, if◌then◌else◌, arith,
}
use native.Mathlib.Decide.{ℕ_discrete, dec_lt}
use pan_vk_kbase.Kernel.{Kernel, Log, Call, Reply, ok, fail}
use pan_vk_kbase.Kernel.Ledger.{Kind, held, one, range}
use pan_vk_kbase.DescriptorLayout.{Layout, descriptor_size}
use pan_vk_kbase.DescriptorPool.{
  DescriptorSet, no_set, PoolBo, DescriptorPool, set_bit, set_set, descs_size, heap_address,
  free_range, free_set_if, free_set, num_descs, first_free, bitset_ffs, set_at, taken, taken_at,
  allocate_range, allocate_first, allocate_set,
}

unfoldable pub sum_below : (n : ℕ) → (ℕ → ℕ) → ℕ
sum_below zero w = 0
sum_below (suc n) w = sum_below n w + w n

sum_below-same :
    (n : ℕ) (w v : ℕ → ℕ) → ((i : ℕ) → i < n → w i ≡ v i) → sum_below n w ≡ sum_below n v
unfolding sum_below
sum_below-same zero w v h = refl
sum_below-same (suc n) w v h =
    omega (arith, sum_below-same n w v (λ i g. h i (omega arith)), h n (omega arith))

-- a sum after a change at one place
sum_below-changed :
    (n j : ℕ) (w v : ℕ → ℕ)
    → j < n
    → ((i : ℕ) → i ≢ j → v i ≡ w i)
    → sum_below n v + w j ≡ sum_below n w + v j
unfolding sum_below
sum_below-changed zero j w v h g = absurd (omega arith)
sum_below-changed (suc n) j w v h g = elim (ℕ_discrete n j) [
  | yes e ↦
      let s = sum_below-same n v w (λ i f. g i (λ u. omega (arith, e, u))) in
      omega (arith, s, ap w e, ap v e)
  | no d ↦ omega (arith, sum_below-changed n j w v (omega (arith, d)) g, g n d)
]

-- what a set holds
unfoldable pub weight : (free : Bool) → (mem : ℕ) → DescriptorSet → Kind → ℕ → ℕ
weight free mem s κ x =
    if free || (s.desc_count == 0) then 0 else one range (heap_address mem s) κ x

abbrev pub weight_at : DescriptorPool → Kind → ℕ → ℕ → ℕ
weight_at p κ x i = weight (p.free_sets i) p.host_only_mem (p.sets i) κ x

-- A pool with memory has it in a buffer or from the memory allocator.
abbrev pub HasMemory : Option PoolBo → (host_only_mem : ℕ) → Type 0
HasMemory none mem = 0 < mem
HasMemory (some b) mem = mem ≡ 0

-- Beyond the sets there is no free one, and the sets hold what is held beside `base`.
pub record IsPool (base : ℕ) (p : DescriptorPool) (l : Log) (κ : Kind) (x : ℕ) : Type 0 where
  pub memory : HasMemory p.desc_bo p.host_only_mem
  pub beyond : (i : ℕ) → p.max_sets ≤ i → p.free_sets i ≡ false
  pub holds : held l κ x ≡ base + sum_below p.max_sets (weight_at p κ x)

heap_address-set_at :
    (bo : Option PoolBo) (mem n a : ℕ) → HasMemory bo mem → heap_address mem (set_at bo n a) ≡ a
heap_address-set_at none mem n a h = ground (arith, h)
heap_address-set_at (some b) mem n a h = ground (arith, h)

desc_count-set_at : (bo : Option PoolBo) (n a : ℕ) → (set_at bo n a).desc_count ≡ n
desc_count-set_at none n a = refl
desc_count-set_at (some b) n a = refl

abbrev or_else : ℕ → Option ℕ → ℕ
or_else i none = i
or_else i (some k) = k

pick-is_free :
    (b : Bool) (i : ℕ) (f : ℕ → Bool) (rest : Option ℕ) (j : ℕ)
    → f i ≡ b
    → (rest ≡ some j → f j ≡ true)
    → (if b then some i else rest) ≡ some j
    → f j ≡ true
pick-is_free true i f rest j t ih e = subst (λ k. f k ≡ true) (ap (or_else i) e) t
pick-is_free false i f rest j t ih e = ih e

pub first_free-is_free : (n i : ℕ) (f : ℕ → Bool) (j : ℕ) → first_free n i f ≡ some j → f j ≡ true
unfolding first_free
first_free-is_free zero i f j e = ground (arith, e)
first_free-is_free (suc n) i f j e =
    pick-is_free (f i) i f (first_free n (suc i) f) j refl (first_free-is_free n (suc i) f j) e

pub weight-free : (mem : ℕ) (s : DescriptorSet) (κ : Kind) (x : ℕ) → weight true mem s κ x ≡ 0
unfolding weight
weight-free mem s κ x = refl

weight-taken :
    (mem n a : ℕ) (bo : Option PoolBo) (κ : Kind) (x : ℕ)
    → HasMemory bo mem
    → weight false mem (set_at bo n a) κ x ≡ (if n == 0 then 0 else one range a κ x)
unfolding weight
weight-taken mem n a bo κ x h = rw (desc_count-set_at bo n a, heap_address-set_at bo mem n a h) refl

pub set_bit-same : (i : ℕ) (b : Bool) (f : ℕ → Bool) → set_bit i b f i ≡ b
set_bit-same i b f = ground arith

pub set_bit-other : (i : ℕ) (b : Bool) (f : ℕ → Bool) (x : ℕ) → x ≢ i → set_bit i b f x ≡ f x
set_bit-other i b f x h = ground (arith, h)

set_set-same : (i : ℕ) (s : DescriptorSet) (f : ℕ → DescriptorSet) → set_set i s f i ≡ s
set_set-same i s f = ground arith

set_set-other :
    (i : ℕ) (s : DescriptorSet) (f : ℕ → DescriptorSet) (x : ℕ) → x ≢ i → set_set i s f x ≡ f x
set_set-other i s f x h = ground (arith, h)

-- The sum after one set is changed.
module _ (p : DescriptorPool) (i : ℕ) (b : Bool) (s : DescriptorSet) (κ : Kind) (x : ℕ)
    (inside : i < p.max_sets) where
  abbrev changed : ℕ → ℕ
  changed j = weight (set_bit i b p.free_sets j) p.host_only_mem (set_set i s p.sets j) κ x

  changed-sum :
      sum_below p.max_sets changed + weight_at p κ x i
      ≡ sum_below p.max_sets (weight_at p κ x) + weight b p.host_only_mem s κ x
  changed-sum =
      let other =
        sum_below-changed p.max_sets i (weight_at p κ x) changed inside
          (λ j d. rw (set_bit-other i b p.free_sets j d, set_set-other i s p.sets j d) refl) in
      let same : changed i ≡ weight b p.host_only_mem s κ x =
        rw (set_bit-same i b p.free_sets, set_set-same i s p.sets) refl in
      omega (arith, other, same)

  changed-beyond :
      ((j : ℕ) → p.max_sets ≤ j → p.free_sets j ≡ false)
      → (j : ℕ) → p.max_sets ≤ j
      → set_bit i b p.free_sets j ≡ false
  changed-beyond h j g = set_bit-other i b p.free_sets j (λ e. omega (arith, e)) ∙ h j g

-- A bit that is set is the one of a set.
below_of_free :
    (p : DescriptorPool) (i : ℕ)
    → ((j : ℕ) → p.max_sets ≤ j → p.free_sets j ≡ false)
    → p.free_sets i ≡ true
    → i < p.max_sets
below_of_free p i beyond f = elim (dec_lt i p.max_sets) [
  | yes b ↦ b
  | no nb ↦ let q = sym f ∙ beyond i (omega (arith, nb)) in ground (arith, q)
]

-- A set that is freed gives its range back.
module _ (k : Kernel) (base : ℕ) (κ : Kind) (x : ℕ) where
  held-free_range :
      (is_empty : Bool) (p : DescriptorPool) (s : DescriptorSet) (l : Log)
      → (s.desc_count == 0) ≡ is_empty
      → held (free_range is_empty p s k l).1 κ x ≡ held l κ x - weight false p.host_only_mem s κ x
  unfolding free_range weight
  held-free_range true p s l z = rw z (omega arith)
  held-free_range false p s l z = rw z (omega arith)

  free_set_if-IsPool :
      (is_free : Bool) (i : ℕ) (p : DescriptorPool) (l : Log)
      → i < p.max_sets
      → p.free_sets i ≡ is_free
      → IsPool base p l κ x
      → IsPool base (free_set_if is_free i p k l).0 (free_set_if is_free i p k l).1 κ x
  unfolding free_set_if
  free_set_if-IsPool true i p l inside f h = h
  free_set_if-IsPool false i p l inside f h =
      let s = p.sets i in
      let l' = (free_range (s.desc_count == 0) p s k l).1 in
      let freed = held-free_range (s.desc_count == 0) p s l refl in
      let sum = changed-sum p i true no_set κ x inside in
      let here : weight_at p κ x i ≡ weight false p.host_only_mem s κ x =
        ap (λ b. weight b p.host_only_mem s κ x) f in
      let none_left = weight-free p.host_only_mem no_set κ x in
      record {
        memory = h.memory;
        beyond = λ j g. set_bit-other i true p.free_sets j (λ e. omega (arith, e)) ∙ h.beyond j g;
        holds = omega (arith, freed, sum, here, none_left, h.holds);
      }

  -- Freeing a set, free or not, keeps the pool's account.
  pub free_set-IsPool :
      (i : ℕ) (p : DescriptorPool) (l : Log)
      → i < p.max_sets
      → IsPool base p l κ x
      → IsPool base (free_set i p k l).0 (free_set i p k l).1 κ x
  unfolding free_set
  free_set-IsPool i p l inside h = free_set_if-IsPool (p.free_sets i) i p l inside refl h

  pub max_sets-free_set :
      (i : ℕ) (p : DescriptorPool) (l : Log) → (free_set i p k l).0.max_sets ≡ p.max_sets
  unfolding free_set free_set_if
  max_sets-free_set i p l = ground arith

  IsPool-shift :
      (p : DescriptorPool) (l l' : Log)
      → held l' κ x ≡ held l κ x
      → IsPool base p l κ x
      → IsPool base p l' κ x
  IsPool-shift p l l' e h = record {
    memory = h.memory;
    beyond = h.beyond;
    holds = omega (arith, e, h.holds);
  }

  taken-IsPool :
      (i n a : ℕ) (p : DescriptorPool) (l l' : Log)
      → p.free_sets i ≡ true
      → IsPool base p l κ x
      → held l' κ x ≡ held l κ x + (if n == 0 then 0 else one range a κ x)
      → IsPool base (taken i n a p).pool l' κ x
  taken-IsPool i n a p l l' f h e =
      let inside = below_of_free p i h.beyond f in
      let sum = changed-sum p i false (set_at p.desc_bo n a) κ x inside in
      let here : weight_at p κ x i ≡ 0 =
        ap (λ b. weight b p.host_only_mem (p.sets i) κ x) f
        ∙ weight-free p.host_only_mem (p.sets i) κ x in
      let new = weight-taken p.host_only_mem n a p.desc_bo κ x h.memory in
      record {
        memory = h.memory;
        beyond = λ j g. set_bit-other i false p.free_sets j (λ e. omega (arith, e)) ∙ h.beyond j g;
        holds = omega (arith, e, sum, here, new, h.holds);
      }

  taken_at-IsPool :
      (r : Reply) (i n : ℕ) (p : DescriptorPool) (l : Log)
      → (n == 0) ≡ false
      → p.free_sets i ≡ true
      → IsPool base p l κ x
      → IsPool base
          (taken_at r i n p).pool
          ((Call.vma_alloc p.heap (descs_size n) descriptor_size, r) ∷ l)
          κ
          x
  taken_at-IsPool (fail e) i n p l z f h = IsPool-shift p l _ (omega arith) h
  taken_at-IsPool (ok o) i n p l z f h = taken-IsPool i n o.value p l _ f h (rw z (omega arith))

  allocate_range-IsPool :
      (is_empty : Bool) (i n : ℕ) (p : DescriptorPool) (l : Log)
      → (n == 0) ≡ is_empty
      → p.free_sets i ≡ true
      → IsPool base p l κ x
      → IsPool base
          (allocate_range is_empty i n p k l).0.pool
          (allocate_range is_empty i n p k l).1
          κ
          x
  unfolding allocate_range
  allocate_range-IsPool true i n p l z f h = taken-IsPool i n 0 p l l f h (rw z (omega arith))
  allocate_range-IsPool false i n p l z f h =
      taken_at-IsPool (k l (Call.vma_alloc p.heap (descs_size n) descriptor_size)) i n p l z f h

  allocate_first-IsPool :
      (o : Option ℕ) (too_small : Bool) (n : ℕ) (p : DescriptorPool) (l : Log)
      → bitset_ffs p ≡ o
      → IsPool base p l κ x
      → IsPool base
          (allocate_first o too_small n p k l).0.pool
          (allocate_first o too_small n p k l).1
          κ
          x
  unfolding allocate_first first_free bitset_ffs
  allocate_first-IsPool none too_small n p l e h = h
  allocate_first-IsPool (some i) true n p l e h = h
  allocate_first-IsPool (some i) false n p l e h =
      allocate_range-IsPool (n == 0) i n p l refl
        (first_free-is_free ((p.max_sets + 31) / 32 * 32) 0 p.free_sets i e) h

  pub allocate_set-IsPool :
      (layout : Layout) (count : ℕ) (p : DescriptorPool) (l : Log)
      → IsPool base p l κ x
      → IsPool base (allocate_set layout count p k l).0.pool (allocate_set layout count p k l).1 κ x
  unfolding allocate_set
  allocate_set-IsPool layout count p l h =
      let n = num_descs layout count in
      allocate_first-IsPool (bitset_ffs p) (ltb p.free_size (descs_size n)) n p l refl h

module _ (k : Kernel) where
  free_sets-free_set_if :
      (is_free : Bool) (i : ℕ) (p : DescriptorPool) (l : Log) (j : ℕ)
      → p.free_sets i ≡ is_free
      → (free_set_if is_free i p k l).0.free_sets j ≡ set_bit i true p.free_sets j
  unfolding free_set_if
  free_sets-free_set_if false i p l j f = refl
  free_sets-free_set_if true i p l j f = elim (ℕ_discrete j i) [
    | yes e ↦
        ap p.free_sets e
        ∙ f
        ∙ sym (ap (set_bit i true p.free_sets) e ∙ set_bit-same i true p.free_sets)
    | no d ↦ sym (set_bit-other i true p.free_sets j d)
  ]

  -- Freeing a set sets its bit, and no other.
  pub free_sets-free_set :
      (i : ℕ) (p : DescriptorPool) (l : Log) (j : ℕ)
      → (free_set i p k l).0.free_sets j ≡ set_bit i true p.free_sets j
  unfolding free_set
  free_sets-free_set i p l j = free_sets-free_set_if (p.free_sets i) i p l j refl
