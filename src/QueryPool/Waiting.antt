-- ===== src/QueryPool/Waiting.antt =====
-- What GetQueryPoolResults answers when it waits.
use pan_vk_kbase.Prelude.{
  ℕ, zero, suc, ◌+◌, ◌≤◌, ◌<◌, ◌≡◌, refl, Bool, true, false, not, ◌&&◌, Option, some, List, [],
  arith,
}
use pan_vk_kbase.PrivBo.{VkResult, vk_success}
use pan_vk_kbase.QueryPool.{Moment, is_available}
use pan_vk_kbase.QueryPool.Results.{
  ResultsInfo, Store, Results, end_turn, after_wait, turn, get_from, get_query_pool_results,
}
use pan_vk_kbase.QueryPool.Status.{query_at}
use pan_vk_kbase.QueryPool.Wait.{wait_for_available-in_time}

-- Results with success.
Succeeds : Results → Type 0
Succeeds r = (stores : List Store) × (r ≡ some (vk_success, stores))

module _ (info : ResultsInfo) (ms : ℕ → Moment) (last rounds : ℕ) (waits : info.flags.wait ≡ true)
    (enough : last < rounds) (fine : (t : ℕ) → (ms t).status ≡ vk_success)
    (available : (t i : ℕ) → last ≤ t → is_available (ms t) (query_at info ms i) ≡ true)
    (in_time : (t u : ℕ) → u ≤ t + suc last → (ms u).now < (ms t).deadline) where
  end_turn-Succeeds :
      (i t : ℕ) (stores : List Store) (go : (t : ℕ) → VkResult → List Store → Results)
      → ((t : ℕ) (stores : List Store) → Succeeds (go t vk_success stores))
      → Succeeds (end_turn info ms i t true vk_success stores go)
  unfolding end_turn
  end_turn-Succeeds i t stores go h = h (suc t) _

  after_wait-Succeeds :
      (o : Option (VkResult × ℕ)) (u i : ℕ) (stores : List Store)
      (go : (t : ℕ) → VkResult → List Store → Results)
      → o ≡ some (vk_success, u)
      → ((t : ℕ) (stores : List Store) → Succeeds (go t vk_success stores))
      → Succeeds (after_wait o info ms i stores go)
  unfolding after_wait
  after_wait-Succeeds o u i stores go e h = rw e (end_turn-Succeeds i (suc u) stores go h)

  turn-Succeeds :
      (b : Bool) (i t : ℕ) (stores : List Store) (go : (t : ℕ) → VkResult → List Store → Results)
      → (not (is_available (ms t) (query_at info ms i)) && info.flags.wait) ≡ b
      → ((t : ℕ) (stores : List Store) → Succeeds (go t vk_success stores))
      → Succeeds (turn b rounds info ms i t vk_success stores go)
  unfolding turn
  turn-Succeeds true i t stores go e h =
      let (u, r, l, a) =
        wait_for_available-in_time ms (ms t).deadline (query_at info ms i) last rounds (suc t)
          enough (available (suc t + last) i (omega arith))
          (λ v lo hi. (in_time t v (omega arith), fine v)) in
      after_wait-Succeeds _ u i stores go r h
  turn-Succeeds false i t stores go e h =
      let a : is_available (ms t) (query_at info ms i) ≡ true = ground (arith, e, waits) in
      rw a (end_turn-Succeeds i (suc t) stores go h)

  get_from-Succeeds :
      (n i t : ℕ) (stores : List Store) → Succeeds (get_from n rounds info ms i t vk_success stores)
  unfolding get_from Succeeds
  get_from-Succeeds zero i t stores = (stores, refl)
  get_from-Succeeds (suc n) i t stores =
      turn-Succeeds _ i t stores (get_from n rounds info ms (suc i)) refl
        (λ t stores. get_from-Succeeds n (suc i) t stores)

  -- With the wait flag and a device without error, where all queries of the call are available
  -- from some moment on and no deadline passes up to one moment more than that after it was set,
  -- GetQueryPoolResults succeeds, for as many queries as are asked for, on more rounds of each
  -- wait than that moment.
  pub get_query_pool_results-in_time :
      (n : ℕ)
      → (stores : List Store) × (get_query_pool_results false rounds info n ms
          ≡ some (vk_success, stores))
  unfolding get_query_pool_results Succeeds
  get_query_pool_results-in_time n = get_from-Succeeds n 0 0 []
