-- ===== src/QueryPool/Results.antt =====
-- What GetQueryPoolResults of the same files reads and stores, with the info words of timestamps.
use pan_vk_kbase.Prelude.{
  ℕ, zero, suc, ◌+◌, ◌-◌, ◌*◌, ◌/◌, ◌%◌, ◌^◌, Bool, true, false, not, ◌&&◌, ◌||◌, min, max, Option,
  none, some, List, [], ◌∷◌, ◌++◌, ◌==◌, if◌then◌else◌,
}
use pan_vk_kbase.PrivBo.{VkResult, vk_success, vk_error_device_lost, vk_not_ready}
use pan_vk_kbase.QueryPool.{
  QueryType, occlusion, timestamp, primitives_generated, QueryPool, query_offset, Moment,
  is_available, wait_for_available,
}

-- the VkQueryResultFlags that are read
pub record ResultFlags : Type 0 where
  pub as_64_bit : Bool
  pub wait : Bool
  pub partial : Bool
  pub with_availability : Bool

-- a store into the application's memory
pub record Store : Type 0 where
  pub offset : ℕ
  pub size : ℕ
  pub value : ℕ

-- cpu_write_query_result
abbrev pub write_query_result : (dst idx : ℕ) → ResultFlags → (result : ℕ) → Store
write_query_result dst idx f r =
    if f.as_64_bit
    then record { offset = dst + idx * 8; size = 8; value = r }
    else record { offset = dst + idx * 4; size = 4; value = r % 2 ^ 32 }

-- the sum of cpu_write_occlusion_query_result, over `n` reports from a number on
unfoldable pub occlusion_result : (n core_idx : ℕ) → (src : ℕ → ℕ) → (result : ℕ) → ℕ
occlusion_result zero c src r = r
occlusion_result (suc n) c src r = occlusion_result n (suc c) src ((r + src c) % 2 ^ 64)

-- panvk_query_ts_op
pub data TsOp : Type 0 where
  ts_max ts_min : TsOp

abbrev pub op_value : TsOp → ℕ
op_value ts_max = 0
op_value ts_min = 1

-- panvk_timestamp_info_encode
unfoldable pub timestamp_info_encode : TsOp → (sq_mask : ℕ) → ℕ
timestamp_info_encode op mask = mask * 2 ^ 32 % 2 ^ 64 + op_value op

-- Whether panvk_timestamp_info_get_op is PANVK_QUERY_TS_OP_MIN: no other value is asked for.
abbrev pub is_min : (encoded : ℕ) → Bool
is_min encoded = encoded % 2 ^ 32 == 1

-- panvk_timestamp_info_get_sq_mask
unfoldable pub timestamp_info_get_sq_mask : (encoded : ℕ) → ℕ
timestamp_info_get_sq_mask encoded = encoded / 2 ^ 32 % 2 ^ 32

-- a report that counts: its subqueue is in the mask, and it is not zero
unfoldable pub counts : (sq_mask idx value : ℕ) → Bool
counts mask idx v = (mask / 2 ^ idx % 2 == 1) && not (v == 0)

abbrev pub pick : (min_op : Bool) → (result value : ℕ) → ℕ
pick true r v = min r v
pick false r v = max r v

-- the loop of cpu_write_timestamp_query_result, over `n` reports from a number on
unfoldable pub timestamp_loop :
    (n idx sq_mask : ℕ) → (min_op : Bool) → (src : ℕ → ℕ) → (result : ℕ) → ℕ
unfolding counts
timestamp_loop zero i mask m src r = r
timestamp_loop (suc n) i mask m src r =
    timestamp_loop n (suc i) mask m src (if counts mask i (src i) then pick m r (src i) else r)

-- UINT64_MAX
abbrev pub uint64_max : ℕ
uint64_max = 2 ^ 64 - 1

-- the result of cpu_write_timestamp_query_result
unfoldable pub timestamp_result : (input_value_count : ℕ) → (src : ℕ → ℕ) → ℕ
unfolding timestamp_loop timestamp_info_get_sq_mask
timestamp_result n src =
    let info = src (n - 1) in
    let m = is_min info in
    let r =
      timestamp_loop (n - 1) 0 (timestamp_info_get_sq_mask info) m src
        (if m then uint64_max else 0) in
    if m && (r == uint64_max) then 0 else r

-- the value of a query, by its type
unfoldable pub result_of : QueryType → (reports_per_query : ℕ) → (src : ℕ → ℕ) → ℕ
unfolding occlusion_result timestamp_result
result_of occlusion n src = occlusion_result n 0 src 0
result_of timestamp n src = timestamp_result n src
result_of primitives_generated n src = src 0

abbrev pub bool_value : Bool → ℕ
bool_value true = 1
bool_value false = 0

-- the stores of one query, which lands at `dst`
unfoldable pub query_stores :
    QueryPool → ResultFlags → Moment → (query dst : ℕ) → (available : Bool) → List Store
unfolding result_of query_offset
query_stores p f m query dst available =
    let src = λ (i : ℕ). m.reports (query_offset p query + 8 * i) in
    (if available || f.partial
      then write_query_result dst 0 f (result_of p.query_type p.reports_per_query src) ∷ []
      else [])
    ++ (if f.with_availability then write_query_result dst 1 f (bool_value available) ∷ [] else [])

-- the status and the stores of the call, or `none` when the rounds ran out
abbrev pub Results : Type 0
Results = Option (VkResult × List Store)

-- what is asked for: the pool, the first query, the stride and the flags
pub record ResultsInfo : Type 0 where
  pub pool : QueryPool
  pub first_query : ℕ
  pub stride : ℕ
  pub flags : ResultFlags

-- the end of a turn: query `i` of the call, read at moment `t`
unfoldable pub end_turn :
    ResultsInfo
    → (ℕ → Moment)
    → (i t : ℕ) → (available : Bool) → VkResult
    → List Store
    → ((t : ℕ) → VkResult → List Store → Results)
    → Results
unfolding query_stores
end_turn info ms i t available status stores go =
    go (suc t) (if available || info.flags.partial then status else vk_not_ready) (
      stores
      ++ query_stores info.pool info.flags (ms t) ((info.first_query + i) % 2 ^ 32)
          (i * info.stride) available)

-- by the end of the wait
unfoldable pub after_wait :
    Option (VkResult × ℕ)
    → ResultsInfo
    → (ℕ → Moment)
    → (i : ℕ) → List Store
    → ((t : ℕ) → VkResult → List Store → Results)
    → Results
unfolding end_turn
after_wait none info ms i stores go = none
after_wait (some (vk_success, t)) info ms i stores go =
    end_turn info ms i (suc t) true vk_success stores go
after_wait (some (r, t)) info ms i stores go = some (r, stores)

-- by whether the query is waited for
unfoldable pub turn :
    (waits : Bool)
    → (rounds : ℕ) → ResultsInfo
    → (ℕ → Moment)
    → (i t : ℕ) → VkResult
    → List Store
    → ((t : ℕ) → VkResult → List Store → Results)
    → Results
unfolding after_wait wait_for_available is_available
turn true rounds info ms i t status stores go =
    after_wait
      (wait_for_available rounds ms (suc t) (ms t).deadline ((info.first_query + i) % 2 ^ 32)) info
      ms i stores go
turn false rounds info ms i t status stores go =
    end_turn info ms i (suc t) (is_available (ms t) ((info.first_query + i) % 2 ^ 32)) status stores
      go

-- `n` queries more, from query `i` of the call and moment `t` on
unfoldable pub get_from :
    (n rounds : ℕ) → ResultsInfo → (ℕ → Moment) → (i t : ℕ) → VkResult → List Store → Results
unfolding turn
get_from zero rounds info ms i t status stores = some (status, stores)
get_from (suc n) rounds info ms i t status stores =
    let query = (info.first_query + i) % 2 ^ 32 in
    turn (not (is_available (ms t) query) && info.flags.wait) rounds info ms i t status stores
      (get_from n rounds info ms (suc i))

-- panvk_per_arch(GetQueryPoolResults), by whether the device is lost
unfoldable pub get_query_pool_results :
    (is_lost : Bool) → (rounds : ℕ) → ResultsInfo → (query_count : ℕ) → (ℕ → Moment) → Results
unfolding get_from
get_query_pool_results true rounds info n ms = some (vk_error_device_lost, [])
get_query_pool_results false rounds info n ms = get_from n rounds info ms 0 0 vk_success []
