-- ===== src/QueryPool/Tests.antt =====
-- Runs of the definitions of QueryPool, and its theorems at concrete inputs.
use pan_vk_kbase.Prelude.{
  ℕ, ◌+◌, ◌-◌, ◌*◌, ◌^◌, ◌≤◌, ◌<◌, ◌≡◌, refl, true, false, not, ◌&&◌, some, List, [], ◌∷◌, leb, ltb,
  ◌==◌, if◌then◌else◌, arith,
}
use pan_vk_kbase.PrivBo.{vk_success, vk_not_ready}
use pan_vk_kbase.QueryPool.{
  occlusion, query_pool, Moment, is_available, available_offset, query_offset, reset_query_pool,
  wait_for_available,
}
use pan_vk_kbase.QueryPool.Results.{
  ResultsInfo, Store, get_query_pool_results, get_from, turn, end_turn, query_stores, result_of,
  occlusion_result, timestamp_loop, timestamp_result, timestamp_info_get_sq_mask, counts,
}
use pan_vk_kbase.QueryPool.Reset.{reset_query_pool-is_available}
use pan_vk_kbase.QueryPool.Wait.{EndsBy, wait_for_available-EndsBy}
use pan_vk_kbase.QueryPool.Status.{
  query_at, all_available, all_stores, status_by, get_query_pool_results-status_by,
}
use pan_vk_kbase.QueryPool.Waiting.{get_query_pool_results-in_time}
use pan_vk_kbase.QueryPool.Timestamp.{IsCounted, timestamp_result-IsCounted}

-- All queries are available from the fifth moment on, and a report holds its offset and one.
abbrev moments : ℕ → Moment
moments t = record {
  now = 1000 * t;
  deadline = 1000 * t + 2000000000;
  words = λ o. if ltb t 5 then 0 else 1;
  reports = λ o. o + 1;
  status = vk_success;
}

abbrev sample_info : ResultsInfo
sample_info = record {
  pool = query_pool occlusion 4;
  first_query = 1;
  stride = 16;
  flags = record { as_64_bit = true; wait = true; partial = false; with_availability = true };
}

abbrev impatient_info : ResultsInfo
impatient_info = record sample_info { flags = record sample_info.flags { wait = false } }

moments-available :
    (t i : ℕ) → 5 ≤ t → is_available (moments t) (query_at sample_info moments i) ≡ true
unfolding is_available available_offset
moments-available t i h = ground (arith, h)

moments-in_time : (t u : ℕ) → u ≤ t + 6 → (moments u).now < (moments t).deadline
moments-in_time t u h = omega arith

get_query_pool_results-in_time_example :
    (stores : List Store) × (get_query_pool_results false 6 sample_info 3 moments
      ≡ some (vk_success, stores))
get_query_pool_results-in_time_example =
    get_query_pool_results-in_time sample_info moments 5 6 refl (omega arith) (λ t. refl)
      moments-available moments-in_time 3

-- The first two queries are looked at too early.
impatient_info-results :
    get_query_pool_results false 6 impatient_info 3 moments
    ≡ some (
      vk_not_ready,
      record { offset = 8; size = 8; value = 0 }
          ∷ record { offset = 24; size = 8; value = 0 }
          ∷ record { offset = 40; size = 8; value = 0 }
          ∷ [],
    )
unfolding get_query_pool_results get_from turn end_turn is_available query_stores result_of
    occlusion_result query_offset available_offset
impatient_info-results = refl

get_query_pool_results-status_by_example :
    get_query_pool_results false 6 impatient_info 3 moments
    ≡ some (
      status_by impatient_info moments (all_available impatient_info moments 3 0 0) vk_success,
      all_stores impatient_info moments 3 0 0,
    )
get_query_pool_results-status_by_example =
    get_query_pool_results-status_by impatient_info moments 6 3 refl

-- The deadline of the first moment is over at the fourth.
abbrev late_moments : ℕ → Moment
late_moments t = record (moments t) { now = 600000000 * t; words = λ o. 0 }

wait_for_available-EndsBy_example :
    EndsBy late_moments 2000000000 1 0 4 (wait_for_available 5 late_moments 0 2000000000 1)
wait_for_available-EndsBy_example =
    wait_for_available-EndsBy late_moments 2000000000 1 4 5 0 (omega arith) (omega arith)

reset_query_pool-is_available_example :
    is_available (record (moments 7) { words = reset_query_pool 1 2 (moments 7).words }) 2
    ≡ (not (leb 1 2 && ltb 2 (1 + 2)) && is_available (moments 7) 2)
reset_query_pool-is_available_example =
    reset_query_pool-is_available 1 2 2 (moments 7) (omega arith) (omega arith)

-- the least of the reports of subqueues 0 and 2
abbrev stamps : ℕ → ℕ
stamps i = if i == 3 then 5 * 2 ^ 32 + 1 else 70 - 10 * i

stamps-counted : counts (timestamp_info_get_sq_mask (stamps 3)) 0 (stamps 0) ≡ true
unfolding counts timestamp_info_get_sq_mask
stamps-counted = refl

stamps-result : timestamp_result 4 stamps ≡ 50
unfolding timestamp_result timestamp_loop timestamp_info_get_sq_mask counts
stamps-result = refl

timestamp_result-IsCounted_example :
    (timestamp_result 4 stamps ≤ stamps 0)
    × (i : ℕ) × IsCounted (timestamp_info_get_sq_mask (stamps 3)) true stamps 3 i
    × (timestamp_result 4 stamps ≡ stamps i)
timestamp_result-IsCounted_example =
    timestamp_result-IsCounted 4 stamps 0 (omega arith, stamps-counted) (omega arith)
