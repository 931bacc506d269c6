-- ===== src/DescriptorPool/Batch.antt =====
-- A batch of sets that fails part of the way.
use pan_vk_kbase.Prelude.{
  ℕ, ◌+◌, ◌/◌, ◌*◌, ◌≡◌, ◌≢◌, refl, sym, ap, ◌∙◌, Bool, true, false, ◌||◌, Option, none, some, List,
  [], ◌∷◌, ◌++◌, ◌==◌, arith,
}
use native.Mathlib.Decide.{ℕ_discrete}
use pan_vk_kbase.Kernel.{Kernel, Log, Reply, ok, fail, M}
use pan_vk_kbase.PrivBo.{VkResult, vk_success}
use pan_vk_kbase.DescriptorLayout.{Layout}
use pan_vk_kbase.DescriptorPool.{
  DescriptorPool, set_bit, bitset_ffs, taken_at, allocate_range, allocate_first, allocate_set,
  free_set, free_sets, Request, Allocated, allocate_next, allocate_sets,
}
use pan_vk_kbase.DescriptorPool.Held.{first_free-is_free, free_sets-free_set, set_bit-other}

abbrev is_in : ℕ → List ℕ → Bool
is_in j [] = false
is_in j (i ∷ is) = (j == i) || is_in j is

-- The set that an allocation found was free, and its bit is the one that changes.
Found : Option ℕ → (new old : ℕ → Bool) → Type 0
Found none new old = (j : ℕ) → new j ≡ old j
Found (some i) new old = (old i ≡ true) × ((j : ℕ) → new j ≡ set_bit i false old j)

-- The bits before, when the sets of a list were taken since.
Since : (before : ℕ → Bool) → (now : ℕ → Bool) → List ℕ → Type 0
Since before now is = (j : ℕ) → before j ≡ (now j || is_in j is)

taken_at-Found :
    (r : Reply) (i n : ℕ) (p : DescriptorPool)
    → p.free_sets i ≡ true
    → Found (taken_at r i n p).set_idx (taken_at r i n p).pool.free_sets p.free_sets
unfolding Found
taken_at-Found (fail e) i n p f = λ j. refl
taken_at-Found (ok o) i n p f = (f, λ j. refl)

set_bit-or :
    (i : ℕ) (f : ℕ → Bool) (is : List ℕ) (j : ℕ)
    → (set_bit i true f j || is_in j is) ≡ (f j || is_in j (i ∷ is))
set_bit-or i f is j = ground arith

is_in-snoc : (j i : ℕ) (is : List ℕ) → is_in j (is ++ (i ∷ [])) ≡ (is_in j is || (j == i))
is_in-snoc j i [] = ground arith
is_in-snoc j i (a ∷ is) = ground (arith, is_in-snoc j i is)

module _ (k : Kernel) where
  allocate_range-Found :
      (is_empty : Bool) (i n : ℕ) (p : DescriptorPool) (l : Log)
      → p.free_sets i ≡ true
      → let a = (allocate_range is_empty i n p k l).0 in
        Found a.set_idx a.pool.free_sets p.free_sets
  unfolding allocate_range Found
  allocate_range-Found true i n p l f = (f, λ j. refl)
  allocate_range-Found false i n p l f = taken_at-Found (k l _) i n p f

  allocate_first-Found :
      (o : Option ℕ) (too_small : Bool) (n : ℕ) (p : DescriptorPool) (l : Log)
      → bitset_ffs p ≡ o
      → let a = (allocate_first o too_small n p k l).0 in
        Found a.set_idx a.pool.free_sets p.free_sets
  unfolding allocate_first Found bitset_ffs
  allocate_first-Found none too_small n p l e = λ j. refl
  allocate_first-Found (some i) true n p l e = λ j. refl
  allocate_first-Found (some i) false n p l e =
      allocate_range-Found (n == 0) i n p l
        (first_free-is_free ((p.max_sets + 31) / 32 * 32) 0 p.free_sets i e)

  allocate_set-Found :
      (layout : Layout) (count : ℕ) (p : DescriptorPool) (l : Log)
      → let a = (allocate_set layout count p k l).0 in Found a.set_idx a.pool.free_sets p.free_sets
  unfolding allocate_set
  allocate_set-Found layout count p l = allocate_first-Found (bitset_ffs p) _ _ p l refl

  free_sets-Since :
      (is : List ℕ) (p : DescriptorPool) (l : Log)
      → (j : ℕ) → (free_sets is p k l).0.free_sets j ≡ (p.free_sets j || is_in j is)
  unfolding free_sets
  free_sets-Since [] p l j = ground arith
  free_sets-Since (i ∷ is) p l j =
      let r = free_set i p k l in
      free_sets-Since is r.0 r.1 j
      ∙ ap (λ b. b || is_in j is) (free_sets-free_set k i p l j)
      ∙ set_bit-or i p.free_sets is j

  or-last : (a b c : Bool) → c ≡ true → (a || (b || c)) ≡ true
  or-last a b c h = ground (arith, h)

  or-none : (a b c : Bool) → c ≡ false → (a || (b || c)) ≡ (a || b)
  or-none a b c h = ground (arith, h)

  -- one more set taken
  Since-snoc :
      (i : ℕ) (before now new : ℕ → Bool) (is : List ℕ)
      → Since before now is
      → Found (some i) new now
      → Since before new (is ++ (i ∷ []))
  unfolding Since Found
  Since-snoc i before now new is s f j = elim (ℕ_discrete j i) [
    | yes e ↦
        s j
        ∙ ap (λ b. b || is_in j is) (ap now e ∙ f.0)
        ∙ sym (
            ap (λ b. new j || b) (is_in-snoc j i is)
            ∙ or-last (new j) (is_in j is) (j == i) (ground (arith, e)))
    | no d ↦
        s j
        ∙ ap (λ b. b || is_in j is) (sym (f.1 j ∙ set_bit-other i false now j d))
        ∙ sym (
            ap (λ b. new j || b) (is_in-snoc j i is)
            ∙ or-none (new j) (is_in j is) (j == i) (ground (arith, d)))
  ]

  module _ (before : ℕ → Bool) where
    abbrev Restores : (List ℕ → DescriptorPool → M Allocated) → Type 0
    Restores go =
        (is : List ℕ) (p : DescriptorPool) (l : Log)
        → Since before p.free_sets is
        → (go is p k l).0.0.0 ≢ vk_success
        → (j : ℕ) → (go is p k l).0.1.free_sets j ≡ before j

    allocate_next-Restores :
        (o : Option ℕ) (r : VkResult) (is : List ℕ) (go : List ℕ → DescriptorPool → M Allocated)
        (old : ℕ → Bool) (p : DescriptorPool) (l : Log)
        → Restores go
        → Since before old is
        → Found o p.free_sets old
        → (allocate_next o r is go p k l).0.0.0 ≢ vk_success
        → (j : ℕ) → (allocate_next o r is go p k l).0.1.free_sets j ≡ before j
    unfolding allocate_next Since Found
    allocate_next-Restores none r is go old p l step s f h j =
        free_sets-Since is p l j ∙ ap (λ b. b || is_in j is) (f j) ∙ sym (s j)
    allocate_next-Restores (some i) r is go old p l step s f h j =
        step (is ++ (i ∷ [])) p l (Since-snoc i before old p.free_sets is s f) h j

    allocate_sets-Restores : (rs : List Request) → Restores (allocate_sets rs)
    unfolding allocate_sets
    allocate_sets-Restores [] is p l s h j = absurd (h refl)
    allocate_sets-Restores (r ∷ rs) is p l s h j =
        let a = allocate_set r.layout r.variable_count p k l in
        allocate_next-Restores a.0.set_idx a.0.result is (allocate_sets rs) p.free_sets a.0.pool a.1
          (allocate_sets-Restores rs) s (allocate_set-Found r.layout r.variable_count p l) h j

  -- When AllocateDescriptorSets fails, at whichever set, each set of the pool is free or taken as
  -- it was before the call.
  pub allocate_sets-free_sets :
      (rs : List Request) (p : DescriptorPool) (l : Log)
      → let r = allocate_sets rs [] p k l in
        r.0.0.0 ≢ vk_success → (j : ℕ) → r.0.1.free_sets j ≡ p.free_sets j
  unfolding Since
  allocate_sets-free_sets rs p l h =
      allocate_sets-Restores p.free_sets rs [] p l (λ j. ground arith) h
