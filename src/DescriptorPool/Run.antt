-- ===== src/DescriptorPool/Run.antt =====
-- A pool over any run of allocations, releases and resets.
use pan_vk_kbase.Prelude.{
  ℕ, zero, suc, ◌+◌, ◌≤◌, ◌<◌, ◌≡◌, refl, sym, ap, ◌∙◌, Bool, true, false, List, [], ◌∷◌, ltb,
  arith,
}
use native.Mathlib.Decide.{ℕ_discrete}
use pan_vk_kbase.Kernel.{Kernel, Log, M, pure, ◌>>=◌}
use pan_vk_kbase.Kernel.Ledger.{Kind, held}
use pan_vk_kbase.DescriptorLayout.{Layout}
use pan_vk_kbase.DescriptorPool.{
  DescriptorSet, DescriptorPool, set_bit, free_set, free_from, set_count, reset_pool, allocate_set,
}
use pan_vk_kbase.DescriptorPool.Held.{
  IsPool, sum_below, weight, weight-free, weight_at, free_set-IsPool, max_sets-free_set,
  allocate_set-IsPool, set_bit-same, set_bit-other, free_sets-free_set,
}

pub data PoolOp : Type 0 where
  allocate_op : (layout : Layout) (variable_count : ℕ) → PoolOp
  free_op : (set_idx : ℕ) → PoolOp
  reset_op : PoolOp

unfoldable pub free_if : (inside : Bool) → (set_idx : ℕ) → DescriptorPool → M DescriptorPool
unfolding free_set
free_if true i p = free_set i p
free_if false i p = pure p

-- A call of the application, which may free the sets of the pool and no others.
unfoldable pub pool_step : PoolOp → DescriptorPool → M DescriptorPool
unfolding allocate_set free_if reset_pool
pool_step (allocate_op layout count) p = do a ← allocate_set layout count p; pure a.pool
pool_step (free_op i) p = free_if (ltb i p.max_sets) i p
pool_step reset_op p = reset_pool p

unfoldable pub pool_run : List PoolOp → DescriptorPool → M DescriptorPool
unfolding pool_step
pool_run [] p = pure p
pool_run (o ∷ os) p = do p' ← pool_step o p; pool_run os p'

pub sum_below-none : (n : ℕ) (w : ℕ → ℕ) → ((i : ℕ) → i < n → w i ≡ 0) → sum_below n w ≡ 0
unfolding sum_below
sum_below-none zero w h = refl
sum_below-none (suc n) w h =
    omega (arith, sum_below-none n w (λ i g. h i (omega arith)), h n (omega arith))

pub weight-frees :
    (free : Bool) (mem : ℕ) (s : DescriptorSet) (κ : Kind) (x : ℕ)
    → free ≡ true
    → weight free mem s κ x ≡ 0
weight-frees free mem s κ x f = ap (λ b. weight b mem s κ x) f ∙ weight-free mem s κ x

pub set_count-inside : (n : ℕ) (f : ℕ → Bool) (j : ℕ) → j < n → set_count n f j ≡ true
set_count-inside n f j h = ground (arith, h)

pub set_count-outside : (n : ℕ) (f : ℕ → Bool) (j : ℕ) → n ≤ j → set_count n f j ≡ f j
set_count-outside n f j h = ground (arith, h)

module _ (k : Kernel) (base : ℕ) (κ : Kind) (x : ℕ) where
  -- the sets that a loop freed
  free_from-IsPool :
      (n i : ℕ) (p : DescriptorPool) (l : Log)
      → i + n ≤ p.max_sets
      → IsPool base p l κ x
      → let r = free_from n i p k l in IsPool base r.0 r.1 κ x × (r.0.max_sets ≡ p.max_sets)
  unfolding free_from
  free_from-IsPool zero i p l h q = (q, refl)
  free_from-IsPool (suc n) i p l h q =
      let r = free_set i p k l in
      let m = max_sets-free_set k base κ x i p l in
      let t =
        free_from-IsPool n (suc i) r.0 r.1 (omega (arith, m))
          (free_set-IsPool k base κ x i p l (omega arith) q) in
      (t.0, t.1 ∙ m)

  stays_free :
      (i j : ℕ) (p : DescriptorPool) (l : Log)
      → p.free_sets j ≡ true
      → (free_set i p k l).0.free_sets j ≡ true
  stays_free i j p l h = elim (ℕ_discrete j i) [
    | yes e ↦
        free_sets-free_set k i p l j
        ∙ ap (set_bit i true p.free_sets) e
        ∙ set_bit-same i true p.free_sets
    | no d ↦ free_sets-free_set k i p l j ∙ set_bit-other i true p.free_sets j d ∙ h
  ]

  free_from-keeps :
      (n i j : ℕ) (p : DescriptorPool) (l : Log)
      → p.free_sets j ≡ true
      → (free_from n i p k l).0.free_sets j ≡ true
  unfolding free_from
  free_from-keeps zero i j p l h = h
  free_from-keeps (suc n) i j p l h =
      let r = free_set i p k l in free_from-keeps n (suc i) j r.0 r.1 (stays_free i j p l h)

  free_from-frees :
      (n i j : ℕ) (p : DescriptorPool) (l : Log)
      → i ≤ j
      → j < i + n
      → (free_from n i p k l).0.free_sets j ≡ true
  unfolding free_from
  free_from-frees zero i j p l h g = absurd (omega arith)
  free_from-frees (suc n) i j p l h g =
      let r = free_set i p k l in
      elim (ℕ_discrete i j) [
        | yes e ↦ free_from-keeps n (suc i) j r.0 r.1 (
            free_sets-free_set k i p l j
            ∙ ap (set_bit i true p.free_sets) (sym e)
            ∙ set_bit-same i true p.free_sets)
        | no d ↦ free_from-frees n (suc i) j r.0 r.1 (omega (arith, d)) (omega arith)
      ]

  module _ (p : DescriptorPool) (l : Log) (h : IsPool base p l κ x) where
    abbrev freed : DescriptorPool × Log
    freed = free_from p.max_sets 0 p k l

    -- When all sets are freed, the pool holds no range.
    pub held-free_from : held freed.1 κ x ≡ base
    held-free_from =
        let (q, m) = free_from-IsPool p.max_sets 0 p l (omega arith) h in
        let none_held = sum_below-none p.max_sets (weight_at freed.0 κ x) (λ j g.
          weight-frees (freed.0.free_sets j) freed.0.host_only_mem (freed.0.sets j) κ x
            (free_from-frees p.max_sets 0 j p l (omega arith) (omega arith))) in
        omega (arith, q.holds, ap (λ n. sum_below n (weight_at freed.0 κ x)) m, none_held)

    -- A reset keeps the pool's account.
    reset_pool-IsPool : IsPool base (reset_pool p k l).0 (reset_pool p k l).1 κ x
    unfolding reset_pool
    reset_pool-IsPool =
        let r = freed.0 in
        let (q, m) = free_from-IsPool p.max_sets 0 p l (omega arith) h in
        let after : ℕ → ℕ =
          λ j. weight (set_count r.max_sets r.free_sets j) r.host_only_mem (r.sets j) κ x in
        let none_left = sum_below-none r.max_sets after (λ j g.
          weight-frees (set_count r.max_sets r.free_sets j) r.host_only_mem (r.sets j) κ x
            (set_count-inside r.max_sets r.free_sets j g)) in
        record {
          memory = q.memory;
          beyond = λ j g. set_count-outside r.max_sets r.free_sets j g ∙ q.beyond j g;
          holds = omega (arith, held-free_from, none_left);
        }

  free_if-IsPool :
      (inside : Bool) (i : ℕ) (p : DescriptorPool) (l : Log)
      → ltb i p.max_sets ≡ inside
      → IsPool base p l κ x
      → IsPool base (free_if inside i p k l).0 (free_if inside i p k l).1 κ x
  unfolding free_if
  free_if-IsPool true i p l e h = free_set-IsPool k base κ x i p l (ground (arith, e)) h
  free_if-IsPool false i p l e h = h

  pool_step-IsPool :
      (o : PoolOp) (p : DescriptorPool) (l : Log)
      → IsPool base p l κ x
      → IsPool base (pool_step o p k l).0 (pool_step o p k l).1 κ x
  unfolding pool_step
  pool_step-IsPool (allocate_op layout count) p l h =
      allocate_set-IsPool k base κ x layout count p l h
  pool_step-IsPool (free_op i) p l h = free_if-IsPool (ltb i p.max_sets) i p l refl h
  pool_step-IsPool reset_op p l h = reset_pool-IsPool p l h

  pub pool_run-IsPool :
      (os : List PoolOp) (p : DescriptorPool) (l : Log)
      → IsPool base p l κ x
      → IsPool base (pool_run os p k l).0 (pool_run os p k l).1 κ x
  unfolding pool_run
  pool_run-IsPool [] p l h = h
  pool_run-IsPool (o ∷ os) p l h =
      let r = pool_step o p k l in pool_run-IsPool os r.0 r.1 (pool_step-IsPool o p l h)

  -- A descriptor pool whose account is in order, with memory and with its sets holding what is
  -- held beside a base, is used with any run of allocations, releases and resets, and then reset:
  -- of the kind and name of the account, the base is left.
  pub reset_pool-pool_run :
      (os : List PoolOp) (p : DescriptorPool) (l : Log)
      → IsPool base p l κ x
      → let r = pool_run os p k l in held (reset_pool r.0 k r.1).1 κ x ≡ base
  unfolding reset_pool
  reset_pool-pool_run os p l h =
      let r = pool_run os p k l in held-free_from r.0 r.1 (pool_run-IsPool os p l h)
