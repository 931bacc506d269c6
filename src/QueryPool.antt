-- ===== src/QueryPool.antt =====
-- Query pools: mesa_src/mesa_vulkan/panvk_vX_query_pool.c, panvk_query_pool.h and panvk_cmd_ts.h of
-- the repository, for GPUs of architecture 10 and later. The GPU writes to the memory of the
-- queries while the CPU reads it, so that each reading is of a moment of its own.
pub mod Results
pub mod Create
pub mod Wait
pub mod Status
pub mod Waiting
pub mod Timestamp
pub mod Reset
pub mod Tests
use pan_vk_kbase.Prelude.{
  ℕ, zero, suc, ◌+◌, ◌-◌, ◌*◌, ◌/◌, ◌%◌, ◌^◌, Bool, true, false, not, ◌&&◌, ◌||◌, min, max, Option,
  none, some, List, [], ◌∷◌, ◌++◌, leb, ltb, ◌==◌, if◌then◌else◌,
}
use pan_vk_kbase.PrivBo.{VkResult, vk_success, vk_error_device_lost}

-- the types that CreateQueryPool takes
pub data QueryType : Type 0 where
  occlusion timestamp primitives_generated : QueryType

-- struct panvk_query_pool, with the fields of struct vk_query_pool that are read, and no memory
pub record QueryPool : Type 0 where
  pub query_type : QueryType
  pub query_count : ℕ
  pub query_stride : ℕ
  pub reports_per_query : ℕ

-- With PANVK_SUBQUEUE_COUNT of 3, a timestamp has a value of each subqueue and its metadata.
abbrev pub reports_of : QueryType → ℕ
reports_of occlusion = 1
reports_of timestamp = 4
reports_of primitives_generated = 1

-- the fields that CreateQueryPool fills in
abbrev pub query_pool : QueryType → (query_count : ℕ) → QueryPool
query_pool t n = record {
  query_type = t;
  query_count = n;
  query_stride = reports_of t * 8;
  reports_per_query = reports_of t;
}

-- the bytes that it asks for, for the reports and for the availability
abbrev pub reports_size : QueryPool → ℕ
reports_size p = p.reports_per_query * 8 * p.query_count % 2 ^ 64

abbrev pub available_size : QueryPool → ℕ
available_size p = 8 * p.query_count % 2 ^ 64

-- panvk_query_available_offset, on 32 bits
unfoldable pub available_offset : (query : ℕ) → ℕ
available_offset query = query * 8 % 2 ^ 32

-- panvk_query_offset, on 64 bits
unfoldable pub query_offset : QueryPool → (query : ℕ) → ℕ
query_offset p query = query * p.query_stride % 2 ^ 64

-- reset_query_pool, on the words of the availability by their offset
unfoldable pub reset_query_pool : (first count : ℕ) → (ℕ → ℕ) → ℕ → ℕ
unfolding available_offset
reset_query_pool first count words o =
    if leb (available_offset first) o && ltb o (available_offset first + count * 8)
    then 0
    else words o

-- What the CPU sees at a moment: the clock, the deadline that os_time_get_absolute_timeout would
-- give for PANVK_QUERY_TIMEOUT, the words of the availability and the reports by their offset, and
-- the answer of vk_device_check_status.
pub record Moment : Type 0 where
  pub now : ℕ
  pub deadline : ℕ
  pub words : ℕ → ℕ
  pub reports : ℕ → ℕ
  pub status : VkResult

-- panvk_query_is_available
unfoldable pub is_available : Moment → (query : ℕ) → Bool
unfolding available_offset
is_available m query = not (m.words (available_offset query) == 0)

-- the rest of a round, by whether the query is available, and then by the status of the device
abbrev pub check_or : VkResult → (round : ℕ) → Option (VkResult × ℕ) → Option (VkResult × ℕ)
check_or vk_success t rest = rest
check_or r t rest = some (r, t)

abbrev pub available_or :
    (available : Bool) → (round : ℕ) → Option (VkResult × ℕ) → Option (VkResult × ℕ)
available_or true t rest = some (vk_success, t)
available_or false t rest = rest

abbrev pub in_time_or :
    (in_time : Bool) → (round : ℕ) → Option (VkResult × ℕ) → Option (VkResult × ℕ)
in_time_or true t rest = rest
in_time_or false t rest = some (vk_error_device_lost, t)

-- panvk_query_wait_for_available with a number of rounds, from a moment on: the result, and the
-- moment when the loop ended, or `none` when the rounds ran out. A device that is set lost answers
-- VK_ERROR_DEVICE_LOST.
unfoldable pub wait_for_available :
    (rounds : ℕ) → (ℕ → Moment) → (t deadline query : ℕ) → Option (VkResult × ℕ)
unfolding is_available
wait_for_available zero ms t deadline query = none
wait_for_available (suc n) ms t deadline query = in_time_or (ltb (ms t).now deadline) t (
    available_or (is_available (ms t) query) t
      (check_or (ms t).status t (wait_for_available n ms (suc t) deadline query)))
