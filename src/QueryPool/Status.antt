-- ===== src/QueryPool/Status.antt =====
-- What GetQueryPoolResults answers when it does not wait.
use pan_vk_kbase.Prelude.{
  ℕ, zero, suc, ◌+◌, ◌*◌, ◌%◌, ◌^◌, ◌≡◌, refl, sym, ap, ◌∙◌, Bool, true, false, not, ◌&&◌, ◌||◌,
  some, List, [], ◌++◌, if◌then◌else◌, arith,
}
use mathlib.Core.List.{append-nil, append_assoc}
use pan_vk_kbase.PrivBo.{VkResult, vk_success, vk_not_ready}
use pan_vk_kbase.QueryPool.{Moment, is_available}
use pan_vk_kbase.QueryPool.Results.{
  ResultsInfo, Store, query_stores, end_turn, turn, get_from, get_query_pool_results,
}

module _ (info : ResultsInfo) (ms : ℕ → Moment) where
  abbrev pub query_at : ℕ → ℕ
  query_at i = (info.first_query + i) % 2 ^ 32

  -- Each of `n` queries is available when it is looked at, two moments after the one before.
  unfoldable pub all_available : (n i t : ℕ) → Bool
  all_available zero i t = true
  all_available (suc n) i t =
      is_available (ms t) (query_at i) && all_available n (suc i) (suc (suc t))

  -- the stores of each, at the moment after that
  unfoldable pub all_stores : (n i t : ℕ) → List Store
  all_stores zero i t = []
  all_stores (suc n) i t =
      query_stores info.pool info.flags (ms (suc t)) (query_at i) (i * info.stride)
        (is_available (ms t) (query_at i))
      ++ all_stores n (suc i) (suc (suc t))

  -- the status by what the queries were
  abbrev pub status_by : (all : Bool) → VkResult → VkResult
  status_by all s = if info.flags.partial || all then s else vk_not_ready

  status_by-turn :
      (p a b : Bool) (s : VkResult)
      → (if p || b then (if a || p then s else vk_not_ready) else vk_not_ready)
        ≡ (if p || (a && b) then s else vk_not_ready)
  status_by-turn true true b s = refl
  status_by-turn true false b s = refl
  status_by-turn false true b s = refl
  status_by-turn false false true s = refl
  status_by-turn false false false s = refl

  status_by-all : (s : VkResult) → status_by true s ≡ s
  status_by-all s = ground arith

  no_wait : (a w : Bool) → w ≡ false → (not a && w) ≡ false
  no_wait a w e = ground (arith, e)

  get_from-no_wait :
      (n rounds i t : ℕ) (s : VkResult) (stores : List Store)
      → info.flags.wait ≡ false
      → get_from n rounds info ms i t s stores
        ≡ some (status_by (all_available n i t) s, stores ++ all_stores n i t)
  unfolding get_from all_available all_stores turn end_turn
  get_from-no_wait zero rounds i t s stores w =
      ap (λ q. some (s, q)) (sym (append-nil stores))
      ∙ ap (λ v. some (v, stores ++ [])) (sym (status_by-all s))
  get_from-no_wait (suc n) rounds i t s stores w =
      let a = is_available (ms t) (query_at i) in
      let s' = if a || info.flags.partial then s else vk_not_ready in
      let new = query_stores info.pool info.flags (ms (suc t)) (query_at i) (i * info.stride) a in
      let b = all_available n (suc i) (suc (suc t)) in
      let rest = all_stores n (suc i) (suc (suc t)) in
      rw (no_wait a info.flags.wait w) (
        get_from-no_wait n rounds (suc i) (suc (suc t)) s' (stores ++ new) w
        ∙ ap (λ v. some (v, (stores ++ new) ++ rest)) (status_by-turn info.flags.partial a b s)
        ∙ ap (λ q. some (status_by (a && b) s, q)) (append_assoc stores new rest))

  -- Without the wait flag, GetQueryPoolResults answers VK_SUCCESS if results may be partial or
  -- each query was available when it was looked at, and VK_NOT_READY otherwise, and its stores are
  -- those of each query in order.
  pub get_query_pool_results-status_by :
      (rounds n : ℕ)
      → info.flags.wait ≡ false
      → get_query_pool_results false rounds info n ms
        ≡ some (status_by (all_available n 0 0) vk_success, all_stores n 0 0)
  unfolding get_query_pool_results
  get_query_pool_results-status_by rounds n w = get_from-no_wait n rounds 0 0 vk_success [] w
