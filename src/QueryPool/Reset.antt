-- ===== src/QueryPool/Reset.antt =====
-- Where the memory of each query lies, and what a reset does to it.
use pan_vk_kbase.Prelude.{
  ℕ, ◌+◌, ◌*◌, ◌^◌, ◌≤◌, ◌<◌, ◌≡◌, refl, ap, ◌∙◌, Bool, true, false, not, ◌&&◌, leb, ltb, ◌==◌,
  if◌then◌else◌, arith,
}
use pan_vk_kbase.QueryPool.{
  QueryType, occlusion, timestamp, primitives_generated, query_pool, reports_size, available_size,
  available_offset, query_offset, reset_query_pool, Moment, is_available,
}

-- The bytes of a query lie in the bytes that are reset if its number lies in the range.
in_range :
    (first count query : ℕ)
    → first + count ≤ 2 ^ 29
    → query < 2 ^ 29
    → (leb (available_offset first) (available_offset query)
        && ltb (available_offset query) (available_offset first + count * 8))
      ≡ (leb first query && ltb query (first + count))
unfolding available_offset
in_range first count query h g = ground arith

nonzero_if : (b : Bool) (w : ℕ) → not ((if b then 0 else w) == 0) ≡ (not b && not (w == 0))
nonzero_if true w = refl
nonzero_if false w = refl

-- In a pool of at most 2 ^ 29 queries, a reset makes the queries of its range unavailable and
-- leaves the availability of all others.
pub reset_query_pool-is_available :
    (first count query : ℕ) (m : Moment)
    → first + count ≤ 2 ^ 29
    → query < 2 ^ 29
    → is_available (record m { words = reset_query_pool first count m.words }) query
      ≡ (not (leb first query && ltb query (first + count)) && is_available m query)
unfolding is_available reset_query_pool
reset_query_pool-is_available first count query m h g =
    let o = available_offset query in
    nonzero_if (leb (available_offset first) o && ltb o (available_offset first + count * 8))
      (m.words o)
    ∙ ap (λ b. not b && not (m.words o == 0)) (in_range first count query h g)

-- In a pool of at most 2 ^ 29 queries, the reports and the availability of a query lie inside of the
-- memory that is asked for.
query_offset-inside :
    (t : QueryType) (n query : ℕ)
    → n ≤ 2 ^ 29
    → query < n
    → (query_offset (query_pool t n) query + (query_pool t n).query_stride
        ≤ reports_size (query_pool t n))
      × (available_offset query + 8 ≤ available_size (query_pool t n))
unfolding query_offset available_offset
query_offset-inside occlusion n query h g = (omega arith, omega arith)
query_offset-inside timestamp n query h g = (omega arith, omega arith)
query_offset-inside primitives_generated n query h g = (omega arith, omega arith)
