-- ===== src/QueryPool/Wait.antt =====
-- The wait for a query: how it ends, and when.
use pan_vk_kbase.Prelude.{
  ℕ, zero, suc, ◌+◌, ◌≤◌, ◌<◌, ◌≡◌, ◌≢◌, ◌⊎◌, inl, inr, refl, sym, ap, ◌∙◌, subst, Bool, true,
  false, Option, some, ltb, arith,
}
use pan_vk_kbase.PrivBo.{VkResult, vk_success, vk_error_device_lost}
use pan_vk_kbase.QueryPool.{
  Moment, is_available, check_or, available_or, in_time_or, wait_for_available,
}

-- What a result says of the moment at which the wait ended with it: the query was available in
-- time, or the device had this status, or the deadline was over.
pub IsEnd : Moment → (deadline query : ℕ) → VkResult → Type 0
IsEnd m deadline query r =
    ((r ≡ vk_success) × (is_available m query ≡ true) × (m.now < deadline))
    ⊎ ((r ≡ m.status) × (r ≢ vk_success) × (m.now < deadline))
    ⊎ ((r ≡ vk_error_device_lost) × (deadline ≤ m.now))

-- An end at a moment between two.
pub EndsBy : (ℕ → Moment) → (deadline query from to : ℕ) → Option (VkResult × ℕ) → Type 0
EndsBy ms deadline query from to o =
    (r : VkResult) × (t : ℕ) × (o ≡ some (r, t))
    × (from ≤ t)
    × (t ≤ to)
    × IsEnd (ms t) deadline query r

module _ (ms : ℕ → Moment) (deadline query : ℕ) where
  EndsBy-later :
      (from to : ℕ) (o : Option (VkResult × ℕ))
      → EndsBy ms deadline query (suc from) to o
      → EndsBy ms deadline query from to o
  unfolding EndsBy
  EndsBy-later from to o (r, t, e, a, b, c) = (r, t, e, omega arith, b, c)

  check_or-EndsBy :
      (s : VkResult) (t to : ℕ) (rest : Option (VkResult × ℕ))
      → (ms t).status ≡ s
      → (ms t).now < deadline
      → t ≤ to
      → EndsBy ms deadline query (suc t) to rest
      → EndsBy ms deadline query t to (check_or s t rest)
  unfolding EndsBy IsEnd
  check_or-EndsBy vk_success t to rest e h l r = EndsBy-later t to rest r
  check_or-EndsBy s t to rest e h l r =
      (s, t, refl, omega arith, l, inr (inl (sym e, λ q. ground (arith, q), h)))

  available_or-EndsBy :
      (b : Bool) (t to : ℕ) (rest : Option (VkResult × ℕ))
      → is_available (ms t) query ≡ b
      → (ms t).now < deadline
      → t ≤ to
      → (is_available (ms t) query ≡ false → EndsBy ms deadline query t to rest)
      → EndsBy ms deadline query t to (available_or b t rest)
  unfolding EndsBy IsEnd
  available_or-EndsBy true t to rest e h l r =
      (vk_success, t, refl, omega arith, l, inl (refl, e, h))
  available_or-EndsBy false t to rest e h l r = r e

  in_time_or-EndsBy :
      (b : Bool) (t to : ℕ) (rest : Option (VkResult × ℕ))
      → ltb (ms t).now deadline ≡ b
      → t ≤ to
      → ((ms t).now < deadline → EndsBy ms deadline query t to rest)
      → EndsBy ms deadline query t to (in_time_or b t rest)
  unfolding EndsBy IsEnd
  in_time_or-EndsBy true t to rest e l r = r (ground (arith, e))
  in_time_or-EndsBy false t to rest e l r =
      (vk_error_device_lost, t, refl, omega arith, l, inr (inr (refl, ground (arith, e))))

  -- a moment at which the wait goes no further
  abbrev Stops : Moment → Type 0
  Stops m = (deadline ≤ m.now) ⊎ (is_available m query ≡ true)

  round-EndsBy :
      (n t r : ℕ)
      → EndsBy ms deadline query (suc t) (t + n) (wait_for_available r ms (suc t) deadline query)
        ⊎ Stops (ms t)
      → EndsBy ms deadline query t (t + n) (wait_for_available (suc r) ms t deadline query)
  unfolding wait_for_available
  round-EndsBy n t r go =
      let rest = check_or (ms t).status t (wait_for_available r ms (suc t) deadline query) in
      in_time_or-EndsBy (ltb (ms t).now deadline) t (t + n) _ refl (omega arith) (λ h.
        available_or-EndsBy (is_available (ms t) query) t (t + n) rest refl h (omega arith) (λ a.
          elim go [
            | inl e ↦ check_or-EndsBy (ms t).status t (t + n) _ refl h (omega arith) e
            | inr (inl d) ↦ absurd (omega (arith, d))
            | inr (inr d) ↦ absurd (ground (arith, a, d))
          ]))

  ends_by :
      (n r t : ℕ)
      → n < r
      → Stops (ms (t + n))
      → EndsBy ms deadline query t (t + n) (wait_for_available r ms t deadline query)
  ends_by n zero t h s = absurd (omega arith)
  ends_by zero (suc r) t h s = round-EndsBy 0 t r (inr (subst (λ u. Stops (ms u)) (omega arith) s))
  ends_by (suc n) (suc r) t h s =
      let e : t + suc n ≡ suc t + n = omega arith in
      round-EndsBy (suc n) t r (
        inl (
          subst
            (λ u.
              EndsBy ms deadline query (suc t) u (wait_for_available r ms (suc t) deadline query))
            (sym e) (ends_by n r (suc t) (omega arith) (subst (λ u. Stops (ms u)) e s))))

  -- When the clock has reached the deadline at some moment, the wait for a query ends by then:
  -- with success at a moment in time at which the query was available, with the status of the
  -- device at a moment at which it was not success, or with VK_ERROR_DEVICE_LOST at a moment at
  -- which the deadline was over.
  pub wait_for_available-EndsBy :
      (n r t : ℕ)
      → n < r
      → deadline ≤ (ms (t + n)).now
      → EndsBy ms deadline query t (t + n) (wait_for_available r ms t deadline query)
  wait_for_available-EndsBy n r t h d = ends_by n r t h (inl d)

  -- Where the query is available at some moment, and until then the deadline is not over and the device
  -- has no error, the wait succeeds by then.
  pub wait_for_available-in_time :
      (n r t : ℕ)
      → n < r
      → is_available (ms (t + n)) query ≡ true
      → ((u : ℕ) → t ≤ u → u ≤ t + n → ((ms u).now < deadline) × ((ms u).status ≡ vk_success))
      → (u : ℕ) × (wait_for_available r ms t deadline query ≡ some (vk_success, u))
        × (u ≤ t + n)
        × (is_available (ms u) query ≡ true)
  unfolding EndsBy IsEnd
  wait_for_available-in_time n r t h a f =
      let (s, u, e, lo, hi, i) = ends_by n r t h (inr a) in
      let (now, fine) = f u lo hi in
      elim i [
        | inl (q, av, d) ↦ (u, e ∙ ap (λ s. some (s, u)) q, hi, av)
        | inr (inl (q, ne, d)) ↦ absurd (ne (q ∙ fine))
        | inr (inr (q, d)) ↦ absurd (omega (arith, now, d))
      ]
