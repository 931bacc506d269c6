-- ===== src/Pool/Leak.antt =====
-- What the reference counts make of a pool's end: a new buffer has none, where one is expected.
use pan_vk_kbase.Prelude.{
  ℕ, suc, ◌+◌, ◌-◌, ◌%◌, ◌^◌, ◌≡◌, ◌<◌, ◌≤◌, ◌⊎◌, inl, inr, refl, sym, ap, ◌∙◌, subst, true, false,
  Option, none, some, List, [], ◌∷◌, length, arith,
}
use pan_vk_kbase.Kernel.{Kernel, Log}
use pan_vk_kbase.PrivBo.{PanvkDev, PrivBo, priv_bo_unref, priv_bo_destroy, priv_bo_ref}
use pan_vk_kbase.Pool.{Pool, Refs, set_ref, counted, after_unref, unref, unref_all, cut, is_same}
use pan_vk_kbase.Pool.Disjoint.{is_same_self}
use pan_vk_kbase.Pool.Reset.{give_back, pool_reset, pool_cleanup}

-- zero, or below zero by at most `n`, on 64 bits
abbrev IsDropped : (n : ℕ) → Refs → ℕ → Type 0
IsDropped n refs x = (refs x ≡ 0) ⊎ (2 ^ 64 ≤ refs x + n) × (refs x < 2 ^ 64)

not_one :
    (n v : ℕ)
    → n < 2 ^ 63
    → (v ≡ 0) ⊎ (2 ^ 64 ≤ v + n) × (v < 2 ^ 64)
    → (v ≡ 0) ⊎ (1 < v) × (v < 2 ^ 64)
not_one n v h (inl e) = inl e
not_one n v h (inr (lo, hi)) = inr (omega arith, hi)

module _ (dev : PanvkDev) (k : Kernel) where
  priv_bo_unref-not_one :
      (b : PrivBo) (l : Log)
      → (b.refcnt ≡ 0) ⊎ (1 < b.refcnt) × (b.refcnt < 2 ^ 64)
      → priv_bo_unref dev b k l ≡ (some (record b { refcnt = (b.refcnt + 2 ^ 64 - 1) % 2 ^ 64 }), l)
  unfolding priv_bo_unref
  priv_bo_unref-not_one b l h = ground (arith, h)

  unref-not_one :
      (b : PrivBo) (refs : Refs) (l : Log)
      → (refs b.self ≡ 0) ⊎ (1 < refs b.self) × (refs b.self < 2 ^ 64)
      → unref dev b refs k l ≡ (set_ref b.self ((refs b.self + 2 ^ 64 - 1) % 2 ^ 64) refs, l)
  unfolding unref
  unref-not_one b refs l h =
      ap (λ (r : Option PrivBo × Log). (after_unref b refs r.0, r.1))
        (priv_bo_unref-not_one (counted b refs) l h)

  IsDropped-set_ref :
      (n : ℕ) (b : PrivBo) (refs : Refs)
      → n < 2 ^ 63
      → ((x : ℕ) → IsDropped n refs x)
      → (x : ℕ) → IsDropped (suc n) (set_ref b.self ((refs b.self + 2 ^ 64 - 1) % 2 ^ 64) refs) x
  IsDropped-set_ref n b refs small d x = ground (arith, d x, d b.self)

  -- Giving up the references of such buffers makes no call.
  unref_all-no_call :
      (bs : List PrivBo) (n : ℕ) (refs : Refs) (l : Log)
      → n + length bs < 2 ^ 63
      → ((x : ℕ) → IsDropped n refs x)
      → ((unref_all dev bs refs k l).1 ≡ l)
        × ((x : ℕ) → IsDropped (n + length bs) (unref_all dev bs refs k l).0 x)
  unfolding unref_all
  unref_all-no_call [] n refs l small d = (refl, λ x. let e = d x in omega arith)
  unref_all-no_call (b ∷ bs) n refs l small d =
      let refs' = set_ref b.self ((refs b.self + 2 ^ 64 - 1) % 2 ^ 64) refs in
      let e = unref-not_one b refs l (not_one n (refs b.self) (omega arith) (d b.self)) in
      let rest =
        unref_all-no_call bs (suc n) refs' l (omega arith)
          (IsDropped-set_ref n b refs (omega arith) d) in
      subst
        (λ (r : Refs × Log).
          ((unref_all dev bs r.0 k r.1).1 ≡ l)
          × ((x : ℕ) → IsDropped (n + suc (length bs)) (unref_all dev bs r.0 k r.1).0 x))
        (sym e) (rest.0, λ x. let d' = rest.1 x in omega arith)

  give_back-no_call :
      (bs : List PrivBo) (f : Option (List PrivBo)) (n : ℕ) (refs : Refs) (l : Log)
      → f ≡ none
      → n + length bs < 2 ^ 63
      → ((x : ℕ) → IsDropped n refs x)
      → ((give_back dev bs f refs k l).1 ≡ l)
        × ((x : ℕ) → IsDropped (n + length bs) (give_back dev bs f refs k l).0.1 x)
  unfolding give_back
  give_back-no_call bs f n refs l e small d =
      subst
        (λ u.
          ((give_back dev bs u refs k l).1 ≡ l)
          × ((x : ℕ) → IsDropped (n + length bs) (give_back dev bs u refs k l).0.1 x))
        (sym e) (unref_all-no_call bs n refs l small d)

  -- The cleanup of an owning pool without free lists, whose buffers all have count 0 and are fewer
  -- than 2 ^ 63, makes no call, so that no buffer is destroyed.
  pool_cleanup-no_call :
      (p : Pool) (refs : Refs) (l : Log)
      → p.owns_bos ≡ true
      → p.bo_pool ≡ none
      → p.big_bo_pool ≡ none
      → length p.bos + length p.big_bos < 2 ^ 63
      → ((x : ℕ) → refs x ≡ 0)
      → (pool_cleanup dev p refs k l).1 ≡ l
  unfolding pool_cleanup pool_reset
  pool_cleanup-no_call p refs l o a b small z =
      let g = give_back dev p.bos p.bo_pool refs k l in
      let h = give_back-no_call p.bos p.bo_pool 0 refs l a (omega arith) (λ x. inl (z x)) in
      let h' =
        give_back-no_call p.big_bos p.big_bo_pool (length p.bos) g.0.1 g.1 b small
          (λ x. let e = h.1 x in omega arith) in
      rw o (h'.0 ∙ h.0)

  priv_bo_unref-one :
      (b : PrivBo) (l : Log)
      → b.refcnt ≡ 1
      → priv_bo_unref dev b k l ≡ (none, (priv_bo_destroy dev b k l).1)
  unfolding priv_bo_unref
  priv_bo_unref-one b l e = ground (arith, e)

  -- In a sharing pool whose transient buffer has count 0, the user of a piece that was cut from it
  -- destroys the buffer by giving up the piece's reference, while the pool still has it as its
  -- transient buffer.
  unref-frees_transient :
      (p : Pool) (b : PrivBo) (offset size : ℕ) (refs : Refs) (l : Log)
      → p.owns_bos ≡ false
      → p.transient_bo ≡ some b
      → refs b.self ≡ 0
      → let r = cut offset size (some b) p refs in
        (r.1.transient_bo ≡ some b)
        × ((unref dev b r.2 k l).1 ≡ (priv_bo_destroy dev (counted b r.2) k l).1)
  unfolding cut unref priv_bo_ref
  unref-frees_transient p b offset size refs l o t z =
      let r = cut offset size (some b) p refs in
      let same : is_same b p.transient_bo ≡ true = ap (is_same b) t ∙ is_same_self b in
      let one : r.2 b.self ≡ 1 = rw (same, o) (ground (arith, z)) in
      (rw same t, ap (λ (u : Option PrivBo × Log). u.1) (priv_bo_unref-one (counted b r.2) l one))
