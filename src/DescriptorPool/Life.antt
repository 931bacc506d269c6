-- ===== src/DescriptorPool/Life.antt =====
-- A pool of descriptor sets from its creation to its end.
use pan_vk_kbase.Prelude.{
  ℕ, zero, suc, ◌+◌, ◌-◌, ◌≤◌, ◌<◌, ◌≡◌, ◌≢◌, refl, ap, ◌∙◌, Bool, true, false, Option, none, some,
  List, [], ◌∷◌, ltb, ◌==◌, arith,
}
use pan_vk_kbase.Flags.{BoFlags}
use pan_vk_kbase.Kernel.{Kernel, Log, Call, Out, no_out, Reply, ok, fail, M, pure, ◌>>=◌}
use pan_vk_kbase.Kernel.Ledger.{Kind, held, one, memory}
use pan_vk_kbase.PrivBo.{PanvkDev, VkResult, vk_success}
use pan_vk_kbase.DescriptorPool.{
  PoolBo, DescriptorPool, bitset_ffs, taken_at, allocate_range, allocate_first, allocate_set,
  free_set_if, free_set, free_from, reset_pool,
}
use pan_vk_kbase.DescriptorPool.Held.{IsPool, weight_at}
use pan_vk_kbase.DescriptorPool.Run.{
  PoolOp, allocate_op, free_op, reset_op, free_if, pool_step, pool_run, held-free_from,
  pool_run-IsPool, sum_below-none, weight-frees, set_count-inside, set_count-outside,
}
use pan_vk_kbase.DescriptorPool.Create.{
  CreateInfo, count_descs, empty_pool, destroy_memory, destroy_pool, with_memory, init_pool_memory,
  keep_pool, create_memory, create_pool_at, create_pool, destroy_pool_opt,
}

unfoldable pub run_opt : List PoolOp → Option DescriptorPool → M (Option DescriptorPool)
unfolding pool_run
run_opt os none = pure none
run_opt os (some p) = do p' ← pool_run os p; pure (some p')

-- A pool is made, if it can be, used and destroyed.
unfoldable pub pool_life : PanvkDev → BoFlags → CreateInfo → List PoolOp → M (Unit {0})
unfolding create_pool run_opt destroy_pool_opt
pool_life dev flags info os = do
  r ← create_pool dev flags info
  p ← run_opt os r.1
  destroy_pool_opt dev p

-- what no operation changes
abbrev tag : DescriptorPool → ℕ × Option PoolBo × ℕ
tag p = (p.self, p.desc_bo, p.host_only_mem)

module _ (k : Kernel) where
  tag-free_set_if :
      (b : Bool) (i : ℕ) (p : DescriptorPool) (l : Log) → tag (free_set_if b i p k l).0 ≡ tag p
  unfolding free_set_if
  tag-free_set_if true i p l = refl
  tag-free_set_if false i p l = refl

  tag-free_set : (i : ℕ) (p : DescriptorPool) (l : Log) → tag (free_set i p k l).0 ≡ tag p
  unfolding free_set
  tag-free_set i p l = tag-free_set_if (p.free_sets i) i p l

  tag-free_from : (n i : ℕ) (p : DescriptorPool) (l : Log) → tag (free_from n i p k l).0 ≡ tag p
  unfolding free_from
  tag-free_from zero i p l = refl
  tag-free_from (suc n) i p l =
      let r = free_set i p k l in tag-free_from n (suc i) r.0 r.1 ∙ tag-free_set i p l

  tag-taken_at : (r : Reply) (i n : ℕ) (p : DescriptorPool) → tag (taken_at r i n p).pool ≡ tag p
  tag-taken_at (fail e) i n p = refl
  tag-taken_at (ok o) i n p = refl

  tag-allocate_first :
      (o : Option ℕ) (too_small is_empty : Bool) (n : ℕ) (p : DescriptorPool) (l : Log)
      → (n == 0) ≡ is_empty
      → tag (allocate_first o too_small n p k l).0.pool ≡ tag p
  unfolding allocate_first allocate_range
  tag-allocate_first none too_small b n p l e = refl
  tag-allocate_first (some i) true b n p l e = refl
  tag-allocate_first (some i) false true n p l e = rw e refl
  tag-allocate_first (some i) false false n p l e = rw e (tag-taken_at (k l _) i n p)

  tag-free_if :
      (b : Bool) (i : ℕ) (p : DescriptorPool) (l : Log) → tag (free_if b i p k l).0 ≡ tag p
  unfolding free_if
  tag-free_if true i p l = tag-free_set i p l
  tag-free_if false i p l = refl

  tag-pool_step : (o : PoolOp) (p : DescriptorPool) (l : Log) → tag (pool_step o p k l).0 ≡ tag p
  unfolding pool_step allocate_set free_if reset_pool
  tag-pool_step (allocate_op layout count) p l = tag-allocate_first (bitset_ffs p) _ _ _ p l refl
  tag-pool_step (free_op i) p l = tag-free_if (ltb i p.max_sets) i p l
  tag-pool_step reset_op p l = tag-free_from p.max_sets 0 p l

  tag-pool_run :
      (os : List PoolOp) (p : DescriptorPool) (l : Log) → tag (pool_run os p k l).0 ≡ tag p
  unfolding pool_run
  tag-pool_run [] p l = refl
  tag-pool_run (o ∷ os) p l =
      let r = pool_step o p k l in tag-pool_run os r.0 r.1 ∙ tag-pool_step o p l

  -- Sets that are all free take no call.
  free_from-free :
      (n i : ℕ) (p : DescriptorPool) (l : Log)
      → i + n ≤ p.max_sets
      → ((j : ℕ) → j < p.max_sets → p.free_sets j ≡ true)
      → free_from n i p k l ≡ (p, l)
  unfolding free_from free_set free_set_if
  free_from-free zero i p l h f = refl
  free_from-free (suc n) i p l h f =
      rw (f i (omega arith)) (free_from-free n (suc i) p l (omega arith) f)

  module _ (κ : Kind) (x : ℕ) (dev : PanvkDev) where
    held-destroy_memory :
        (bo : Option PoolBo) (mem heap : ℕ) (l : Log)
        → bo ≡ none
        → 0 < mem
        → held (destroy_memory bo mem dev heap k l).1 κ x ≡ held l κ x - one memory mem κ x
    unfolding destroy_memory
    held-destroy_memory (some b) mem heap l e h = ground (arith, e)
    held-destroy_memory none zero heap l e h = absurd (omega arith)
    held-destroy_memory none (suc mem) heap l e h = omega arith

    -- A pool for the host gives back its ranges, its memory and itself.
    held-destroy_pool :
        (base : ℕ) (p : DescriptorPool) (l : Log)
        → p.desc_bo ≡ none
        → 0 < p.host_only_mem
        → IsPool base p l κ x
        → held (destroy_pool dev p k l).1 κ x
          ≡ base - one memory p.host_only_mem κ x - one memory p.self κ x
    unfolding destroy_pool
    held-destroy_pool base p l e m h =
        let (p', l') = free_from p.max_sets 0 p k l in
        let same = tag-free_from p.max_sets 0 p l in
        let mem = ap (λ t. t.2) same in
        let d =
          held-destroy_memory p'.desc_bo p'.host_only_mem p'.heap l' (ap (λ t. t.1) same ∙ e)
            (omega (arith, mem)) in
        let here = held-free_from k base κ x p l h in
        omega (arith, d, here, ap (λ m. one memory m κ x) mem, ap (λ t. one memory t.0 κ x) same)

    pub with_memory-IsPool :
        (self n mem size : ℕ) (l : Log)
        → 0 < mem
        → let p = record (empty_pool self n) { host_only_mem = mem; free_size = size } in
          IsPool (held l κ x) p l κ x
    with_memory-IsPool self n mem size l h =
        let p = record (empty_pool self n) { host_only_mem = mem; free_size = size } in
        let none_held = sum_below-none n (weight_at p κ x) (λ j g.
          weight-frees (p.free_sets j) mem (p.sets j) κ x (set_count-inside n (λ i. false) j g)) in
        record {
          memory = h;
          beyond = λ j g. set_count-outside n (λ i. false) j g;
          holds = omega (arith, none_held);
        }

    held-destroy_empty :
        (self n : ℕ) (l : Log)
        → held (destroy_pool dev (empty_pool self n) k l).1 κ x ≡ held l κ x - one memory self κ x
    unfolding destroy_pool destroy_memory
    held-destroy_empty self n l =
        let same =
          free_from-free n 0 (empty_pool self n) l (omega arith)
            (λ j g. set_count-inside n (λ i. false) j g) in
        rw same (omega arith)

    module _ (os : List PoolOp) where
      -- what follows the creation
      abbrev rest : VkResult × Option DescriptorPool → M (Unit {0})
      unfolding run_opt destroy_pool_opt
      rest r = do p ← run_opt os r.1; destroy_pool_opt dev p

      held-rest :
          (r : VkResult) (base : ℕ) (p : DescriptorPool) (l : Log)
          → p.desc_bo ≡ none
          → 0 < p.host_only_mem
          → IsPool base p l κ x
          → held (rest (r, some p) k l).1 κ x
            ≡ base - one memory p.host_only_mem κ x - one memory p.self κ x
      unfolding run_opt destroy_pool_opt
      held-rest r base p l e m h =
          let (p', l') = pool_run os p k l in
          let same = tag-pool_run os p l in
          let mem = ap (λ t. t.2) same in
          let d =
            held-destroy_pool base p' l' (ap (λ t. t.1) same ∙ e) (omega (arith, mem))
              (pool_run-IsPool k base κ x os p l h) in
          omega (arith, d, ap (λ m. one memory m κ x) mem, ap (λ t. one memory t.0 κ x) same)

      held-with_memory :
          (a : Reply) (self n size : ℕ) (l : Log)
          → ((o : Out) → a ≡ ok o → 0 < o.value)
          → let (m, l1) = with_memory a size (empty_pool self n) k ((Call.alloc, a) ∷ l) in
            let (r, l2) = keep_pool m.0 dev m.1 k l1 in
            held (rest r k l2).1 κ x ≡ held l κ x - one memory self κ x
      unfolding with_memory keep_pool run_opt destroy_pool_opt
      held-with_memory (fail e) self n size l h =
          omega (arith, held-destroy_empty self n ((Call.alloc, fail e) ∷ l))
      held-with_memory (ok o) self n size l h =
          let p = record (empty_pool self n) { host_only_mem = o.value; free_size = size } in
          let l' = (Call.vma_init self o.value size, ok no_out) ∷ (Call.alloc, ok o) ∷ l in
          let pool = with_memory-IsPool self n o.value size l' (h o refl) in
          omega (arith, held-rest vk_success (held l' κ x) p l' refl (h o refl) pool)

      held-create_memory :
          (is_empty : Bool) (flags : BoFlags) (info : CreateInfo) (n self : ℕ) (l : Log)
          → ((o : Out) → k l Call.alloc ≡ ok o → 0 < o.value)
          → info.host_only ≡ true
          → is_empty ≡ false
          → let (r, l2) =
              create_memory is_empty dev flags info n (empty_pool self info.max_sets) k l in
            held (rest r k l2).1 κ x ≡ held l κ x - one memory self κ x
      unfolding create_memory init_pool_memory
      held-create_memory true flags info n self l h t e = ground (arith, e)
      held-create_memory false flags info n self l h t e =
          rw t (held-with_memory (k l Call.alloc) self info.max_sets _ l h)

      held-create_pool_at :
          (a : Reply) (flags : BoFlags) (info : CreateInfo) (l : Log)
          → ((l : Log) (o : Out) → k l Call.alloc ≡ ok o → 0 < o.value)
          → info.host_only ≡ true
          → count_descs info.pool_sizes 0 ≢ 0
          → let (r, l2) = create_pool_at a dev flags info k ((Call.alloc, a) ∷ l) in
            held (rest r k l2).1 κ x ≡ held l κ x
      unfolding create_pool_at run_opt destroy_pool_opt
      held-create_pool_at (fail e) flags info l h t z = omega arith
      held-create_pool_at (ok o) flags info l h t z =
          let n = count_descs info.pool_sizes 0 in
          let m = (Call.alloc, ok o) ∷ l in
          let c = held-create_memory (n == 0) flags info n o.value m (h m) t (ground (arith, z)) in
          omega (arith, c)

      -- A host-only descriptor pool of one descriptor at least that is no dynamic buffer is
      -- created, used with any run of allocations, releases and resets, and destroyed: with a
      -- memory allocator that never gives address 0, whatever fails, the process holds what it
      -- held before, of each kind and name.
      pub held-pool_life :
          (flags : BoFlags) (info : CreateInfo) (l : Log)
          → ((l : Log) (o : Out) → k l Call.alloc ≡ ok o → 0 < o.value)
          → info.host_only ≡ true
          → count_descs info.pool_sizes 0 ≢ 0
          → held (pool_life dev flags info os k l).1 κ x ≡ held l κ x
      unfolding pool_life create_pool
      held-pool_life flags info l = held-create_pool_at (k l Call.alloc) flags info l
