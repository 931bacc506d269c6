-- ===== src/QueryPool/Timestamp.antt =====
-- The value of a timestamp: the least, or the greatest, of the reports that count.
use pan_vk_kbase.Prelude.{
  ℕ, zero, suc, ◌+◌, ◌-◌, ◌%◌, ◌^◌, ◌≤◌, ◌<◌, ◌≡◌, ◌⊎◌, inl, inr, refl, sym, ap, ◌∙◌, subst, Bool,
  true, false, ◌&&◌, ◌==◌, if◌then◌else◌, arith,
}
use native.Mathlib.Decide.{ℕ_discrete}
use pan_vk_kbase.QueryPool.Results.{
  TsOp, ts_max, ts_min, op_value, timestamp_info_encode, is_min, timestamp_info_get_sq_mask, counts,
  pick, timestamp_loop, uint64_max, timestamp_result,
}

-- the order of the operation
abbrev pub Better : (min_op : Bool) → ℕ → ℕ → Type 0
Better true a b = a ≤ b
Better false a b = b ≤ a

Better-refl : (m : Bool) (a : ℕ) → Better m a a
Better-refl true a = omega arith
Better-refl false a = omega arith

Better-trans : (m : Bool) (a b c : ℕ) → Better m a b → Better m b c → Better m a c
Better-trans true a b c h g = omega arith
Better-trans false a b c h g = omega arith

pick-left : (m : Bool) (r v : ℕ) → Better m (pick m r v) r
pick-left true r v = omega arith
pick-left false r v = omega arith

pick-right : (m : Bool) (r v : ℕ) → Better m (pick m r v) v
pick-right true r v = omega arith
pick-right false r v = omega arith

pick-either : (m : Bool) (r v : ℕ) → (pick m r v ≡ r) ⊎ (pick m r v ≡ v)
pick-either true r v = omega arith
pick-either false r v = omega arith

module _ (mask : ℕ) (m : Bool) (src : ℕ → ℕ) where
  -- the result after a report
  abbrev next : (i r : ℕ) → ℕ
  next i r = if counts mask i (src i) then pick m r (src i) else r

  step : (c : Bool) (i r : ℕ) → Better m (if c then pick m r (src i) else r) r
  step true i r = pick-left m r (src i)
  step false i r = Better-refl m r

  loop-start : (n i r : ℕ) → Better m (timestamp_loop n i mask m src r) r
  unfolding timestamp_loop
  loop-start zero i r = Better-refl m r
  loop-start (suc n) i r =
      Better-trans m (timestamp_loop n (suc i) mask m src (next i r)) (next i r) r
        (loop-start n (suc i) (next i r)) (step (counts mask i (src i)) i r)

  next-counted : (i r : ℕ) → counts mask i (src i) ≡ true → Better m (next i r) (src i)
  next-counted i r c = rw c (pick-right m r (src i))

  loop-Better :
      (n i r j : ℕ)
      → i ≤ j
      → j < i + n
      → counts mask j (src j) ≡ true
      → Better m (timestamp_loop n i mask m src r) (src j)
  unfolding timestamp_loop
  loop-Better zero i r j l h c = absurd (omega arith)
  loop-Better (suc n) i r j l h c = elim (ℕ_discrete i j) [
    | yes e ↦
        Better-trans m (timestamp_loop n (suc i) mask m src (next i r)) (next i r) (src j)
          (loop-start n (suc i) (next i r))
          (subst (λ u. Better m (next i r) (src u)) e
            (next-counted i r (subst (λ u. counts mask u (src u) ≡ true) (sym e) c)))
    | no d ↦ loop-Better n (suc i) (next i r) j (omega (arith, d)) (omega arith) c
  ]

  -- a report that counts, of those below `n`
  abbrev pub IsCounted : (n j : ℕ) → Type 0
  IsCounted n j = (j < n) × (counts mask j (src j) ≡ true)

  next-either :
      (b : Bool) (i r : ℕ)
      → counts mask i (src i) ≡ b
      → (next i r ≡ r) ⊎ ((counts mask i (src i) ≡ true) × (next i r ≡ src i))
  next-either true i r c = elim (pick-either m r (src i)) [
    | inl e ↦ inl (rw c e)
    | inr e ↦ inr (c, rw c e)
  ]
  next-either false i r c = inl (rw c refl)

  -- The result is the one at the start, or a report that counts.
  loop-either :
      (n i r : ℕ)
      → let v = timestamp_loop n i mask m src r in
        (v ≡ r) ⊎ ((j : ℕ) × IsCounted (i + n) j × (v ≡ src j))
  unfolding timestamp_loop
  loop-either zero i r = inl refl
  loop-either (suc n) i r = elim (loop-either n (suc i) (next i r)) [
    | inr (j, (h, c), e) ↦ inr (j, (omega arith, c), e)
    | inl e ↦ elim (next-either (counts mask i (src i)) i r refl) [
      | inl q ↦ inl (e ∙ q)
      | inr (c, q) ↦ inr (i, (omega arith, c), e ∙ q)
    ]
  ]

  loop-none :
      (n i r : ℕ)
      → ((j : ℕ) → j < i + n → counts mask j (src j) ≡ false)
      → timestamp_loop n i mask m src r ≡ r
  loop-none n i r h = elim (loop-either n i r) [
    | inl e ↦ e
    | inr (j, (l, c), e) ↦ absurd (ground (arith, c, h j l))
  ]

-- The start that no report reaches is found again at the end.
abbrev pub start_value : (min_op : Bool) → ℕ
start_value m = if m then uint64_max else 0

counted_nonzero : (mask j v : ℕ) → counts mask j v ≡ true → 0 < v
unfolding counts
counted_nonzero mask j v c = ground (arith, c)

abbrev finish : (m : Bool) → ℕ → ℕ
finish m r = if m && (r == uint64_max) then 0 else r

finish-Better : (m : Bool) (r v : ℕ) → Better m r v → v < uint64_max → finish m r ≡ r
finish-Better true r v b h = ground arith
finish-Better false r v b h = refl

is_start : (m : Bool) (r v : ℕ) → Better m r v → 0 < v → v < uint64_max → r ≡ start_value m → ⊥
is_start true r v b p h e = absurd (omega (arith, e))
is_start false r v b p h e = absurd (omega (arith, e))

finish-start : (m : Bool) → finish m (start_value m) ≡ 0
finish-start true = refl
finish-start false = refl

module _ (n : ℕ) (src : ℕ → ℕ) where
  abbrev info : ℕ
  info = src (n - 1)

  abbrev sq_mask : ℕ
  sq_mask = timestamp_info_get_sq_mask info

  abbrev looped : ℕ
  looped = timestamp_loop (n - 1) 0 sq_mask (is_min info) src (start_value (is_min info))

  -- Where a report below 2 ^ 64 - 1 counts, which is to be of a subqueue of the mask and not 0,
  -- the value of a timestamp is a report that counts, and by the operation no greater or no less
  -- than the one at hand.
  pub timestamp_result-IsCounted :
      (j : ℕ)
      → IsCounted sq_mask (is_min info) src (n - 1) j
      → src j < uint64_max
      → Better (is_min info) (timestamp_result n src) (src j)
        × (i : ℕ) × IsCounted sq_mask (is_min info) src (n - 1) i
        × (timestamp_result n src ≡ src i)
  unfolding timestamp_result
  timestamp_result-IsCounted j (l, c) h =
      let b =
        loop-Better sq_mask (is_min info) src (n - 1) 0 (start_value (is_min info)) j (omega arith)
          (omega arith) c in
      let f = finish-Better (is_min info) looped (src j) b h in
      let attained : (i : ℕ) × IsCounted sq_mask (is_min info) src (n - 1) i × (looped ≡ src i) =
        elim (loop-either sq_mask (is_min info) src (n - 1) 0 (start_value (is_min info))) [
          | inl e ↦
              absurd
                (is_start (is_min info) looped (src j) b (counted_nonzero sq_mask j (src j) c) h e)
          | inr (i, (l', c'), e) ↦ (i, (omega arith, c'), e)
        ] in
      let (i, q, e) = attained in
      (subst (λ v. Better (is_min info) v (src j)) (sym f) b, i, q, f ∙ e)

  -- Where no report counts, the value is 0.
  timestamp_result-none :
      ((j : ℕ) → j < n - 1 → counts sq_mask j (src j) ≡ false) → timestamp_result n src ≡ 0
  unfolding timestamp_result
  timestamp_result-none h =
      ap (finish (is_min info)) (
        loop-none sq_mask (is_min info) src (n - 1) 0 (start_value (is_min info))
          (λ j l. h j (omega arith)))
      ∙ finish-start (is_min info)

op_value-small : (op : TsOp) → op_value op < 2
op_value-small ts_max = omega arith
op_value-small ts_min = omega arith

-- The mask and the operation are read back from the info word, for a mask of 32 bits.
timestamp_info_get_sq_mask-timestamp_info_encode :
    (op : TsOp) (mask : ℕ)
    → mask < 2 ^ 32
    → (timestamp_info_get_sq_mask (timestamp_info_encode op mask) ≡ mask)
      × (timestamp_info_encode op mask % 2 ^ 32 ≡ op_value op)
unfolding timestamp_info_get_sq_mask timestamp_info_encode
timestamp_info_get_sq_mask-timestamp_info_encode op mask h =
    let o = op_value-small op in (omega (arith, o), omega (arith, o))
