-- ===== src/Engine/Screener/Ranking.antt =====
-- The order of the candidates.
use auto_trade_stock_demo.Prelude.{
  if◌then◌else◌, drop, leb, refl, ap, ◌++◌, ◌∙◌, ℕ, zero, suc, true, some, List, [], ◌∷◌, ◌≡◌,
  arith, Dict, take, length, Bool-cases, ◌⊎◌, inl, inr,
}
use mathlib.Core.List.Perm
use mathlib.Core.List.{Perm}
use auto_trade_stock_demo.Numeric.{Numeric, IsOrdered, ◌<=◌, ◌>=◌}
use auto_trade_stock_demo.Toss.{Candle}
use auto_trade_stock_demo.Engine.Costs.{Floats}
use auto_trade_stock_demo.Engine.Screener.{
  ScreenConfig, ScreenResult, place, sort_by_score, passing, screen_symbol, screen_candidates,
}

-- The lesser of two numbers.
abbrev pub fewer : ℕ → ℕ → ℕ
fewer a b = if leb a b then a else b

module _ {F : Type 0} ⦃m : Numeric F⦄ where
  -- The result is one of the list.
  abbrev pub In : ScreenResult F → List (ScreenResult F) → Type 0
  In q [] = ⊥
  In q (r ∷ rs) = (q ≡ r) ⊎ In q rs

  -- No score of the list is above `v`.
  abbrev pub NoneAbove : F → List (ScreenResult F) → Type 0
  NoneAbove v [] = Unit
  NoneAbove v (r ∷ rs) = ((r.score <= v) ≡ true) × NoneAbove v rs

  -- No score of the list is below `v`.
  abbrev pub NoneBelow : F → List (ScreenResult F) → Type 0
  NoneBelow v [] = Unit
  NoneBelow v (r ∷ rs) = ((v <= r.score) ≡ true) × NoneBelow v rs

  abbrev pub Descending : List (ScreenResult F) → Type 0
  Descending [] = Unit
  Descending (r ∷ rs) = NoneAbove r.score rs × Descending rs

  abbrev pub AllPassed : List (ScreenResult F) → Type 0
  AllPassed [] = Unit
  AllPassed (r ∷ rs) = (r.passed ≡ true) × AllPassed rs

  NoneAbove-trans :
      (o : IsOrdered F) (v w : F) (rs : List (ScreenResult F))
      → (v <= w) ≡ true
      → NoneAbove v rs
      → NoneAbove w rs
  NoneAbove-trans o v w [] p h = tt
  NoneAbove-trans o v w (r ∷ rs) p (q, h) =
      (o.le_trans r.score v w q p, NoneAbove-trans o v w rs p h)

  place-NoneAbove :
      (v : F) (q : ScreenResult F) (rs : List (ScreenResult F))
      → (q.score <= v) ≡ true
      → NoneAbove v rs
      → NoneAbove v (place q rs)
  unfolding place
  place-NoneAbove v q [] p h = (p, tt)
  place-NoneAbove v q (r ∷ rs) p h = ground (arith, place-NoneAbove v q rs p h.1)

  place-Descending :
      (o : IsOrdered F) (q : ScreenResult F) (rs : List (ScreenResult F))
      → Descending rs
      → Descending (place q rs)
  unfolding place
  place-Descending o q [] h = (tt, tt)
  place-Descending o q (r ∷ rs) (a, h) = elim (Bool-cases (q.score >= r.score)) [
    | inl e ↦ rw e ((e, NoneAbove-trans o r.score q.score rs e a), (a, h))
    | inr e ↦
        rw e
          (place-NoneAbove r.score q rs (o.le_total r.score q.score e) a, place-Descending o q rs h)
  ]

  place-perm : (q : ScreenResult F) (rs : List (ScreenResult F)) → Perm (place q rs) (q ∷ rs)
  unfolding place
  place-perm q [] = Perm.rfl
  place-perm q (r ∷ rs) = elim (Bool-cases (q.score >= r.score)) [
    | inl e ↦ rw e Perm.rfl
    | inr e ↦ rw e (Perm.trans (Perm.cons r (place-perm q rs)) (Perm.swap q r rs))
  ]

  place-AllPassed :
      (q : ScreenResult F) (rs : List (ScreenResult F))
      → q.passed ≡ true
      → AllPassed rs
      → AllPassed (place q rs)
  unfolding place
  place-AllPassed q [] p h = (p, tt)
  place-AllPassed q (r ∷ rs) p (a, h) = ground (arith, place-AllPassed q rs p h)

  sort_by_score-Descending :
      (o : IsOrdered F) (rs : List (ScreenResult F)) → Descending (sort_by_score rs)
  unfolding sort_by_score
  sort_by_score-Descending o [] = tt
  sort_by_score-Descending o (r ∷ rs) = place-Descending o r _ (sort_by_score-Descending o rs)

  sort_by_score-AllPassed :
      (rs : List (ScreenResult F)) → AllPassed rs → AllPassed (sort_by_score rs)
  unfolding sort_by_score
  sort_by_score-AllPassed [] h = tt
  sort_by_score-AllPassed (r ∷ rs) (p, h) = place-AllPassed r _ p (sort_by_score-AllPassed rs h)

  sort_by_score-perm : (rs : List (ScreenResult F)) → Perm (sort_by_score rs) rs
  unfolding sort_by_score
  sort_by_score-perm [] = Perm.rfl
  sort_by_score-perm (r ∷ rs) =
      Perm.trans (place-perm r (sort_by_score rs)) (Perm.cons r (sort_by_score-perm rs))

  take-NoneAbove :
      (k : ℕ) (v : F) (rs : List (ScreenResult F)) → NoneAbove v rs → NoneAbove v (take k rs)
  unfolding take
  take-NoneAbove zero v rs h = tt
  take-NoneAbove (suc k) v [] h = tt
  take-NoneAbove (suc k) v (r ∷ rs) (p, h) = (p, take-NoneAbove k v rs h)

  take-Descending : (k : ℕ) (rs : List (ScreenResult F)) → Descending rs → Descending (take k rs)
  unfolding take
  take-Descending zero rs h = tt
  take-Descending (suc k) [] h = tt
  take-Descending (suc k) (r ∷ rs) (p, h) = (take-NoneAbove k r.score rs p, take-Descending k rs h)

  take-AllPassed : (k : ℕ) (rs : List (ScreenResult F)) → AllPassed rs → AllPassed (take k rs)
  unfolding take
  take-AllPassed zero rs h = tt
  take-AllPassed (suc k) [] h = tt
  take-AllPassed (suc k) (r ∷ rs) (p, h) = (p, take-AllPassed k rs h)

  -- Every result of the second list scores no higher than any of the first.
  abbrev pub Outranks : List (ScreenResult F) → List (ScreenResult F) → Type 0
  Outranks [] dropped = Unit
  Outranks (r ∷ rs) dropped = NoneAbove r.score dropped × Outranks rs dropped

  drop-NoneAbove :
      (k : ℕ) (v : F) (rs : List (ScreenResult F)) → NoneAbove v rs → NoneAbove v (drop k rs)
  unfolding drop
  drop-NoneAbove zero v rs h = h
  drop-NoneAbove (suc k) v [] h = tt
  drop-NoneAbove (suc k) v (r ∷ rs) (p, h) = drop-NoneAbove k v rs h

  -- What the cut drops scores no higher than what it keeps.
  take-Outranks :
      (k : ℕ) (rs : List (ScreenResult F)) → Descending rs → Outranks (take k rs) (drop k rs)
  unfolding take drop
  take-Outranks zero rs d = tt
  take-Outranks (suc k) [] d = tt
  take-Outranks (suc k) (r ∷ rs) (a, d) = (drop-NoneAbove k r.score rs a, take-Outranks k rs d)

  take-drop : (k : ℕ) (rs : List (ScreenResult F)) → take k rs ++ drop k rs ≡ rs
  unfolding take drop
  take-drop zero rs = refl
  take-drop (suc k) [] = refl
  take-drop (suc k) (r ∷ rs) = ap (λ t. r ∷ t) (take-drop k rs)

  length-taken : (k : ℕ) (rs : List (ScreenResult F)) → length (take k rs) ≡ fewer k (length rs)
  unfolding take
  length-taken zero rs = ground arith
  length-taken (suc k) [] = ground arith
  length-taken (suc k) (r ∷ rs) = ground (arith, length-taken k rs)

  -- The results that passed, in their order.
  abbrev pub passed_of : List (ScreenResult F) → List (ScreenResult F)
  passed_of [] = []
  passed_of (r ∷ rs) = let rest = passed_of rs in if r.passed then r ∷ rest else rest

  passed_of-AllPassed : (rs : List (ScreenResult F)) → AllPassed (passed_of rs)
  passed_of-AllPassed [] = tt
  passed_of-AllPassed (r ∷ rs) = ground (arith, passed_of-AllPassed rs)

  length-place :
      (q : ScreenResult F) (rs : List (ScreenResult F)) → length (place q rs) ≡ suc (length rs)
  unfolding place
  length-place q [] = ground arith
  length-place q (r ∷ rs) = ground (arith, length-place q rs)

  length-sort_by_score : (rs : List (ScreenResult F)) → length (sort_by_score rs) ≡ length rs
  unfolding sort_by_score
  length-sort_by_score [] = refl
  length-sort_by_score (r ∷ rs) =
      length-place r (sort_by_score rs) ∙ ap suc (length-sort_by_score rs)

module _ {F D : Type 0} ⦃m : Numeric F⦄ (x : Floats F D) where
  -- The results of all candidates.
  abbrev pub screened : Dict (List (Candle D)) → ScreenConfig F → List (ScreenResult F)
  screened [] cfg = []
  screened ((s, cs) ∷ rest) cfg = screen_symbol x s cs cfg ∷ screened rest cfg

  passing-passed_of :
      (candles : Dict (List (Candle D))) (cfg : ScreenConfig F)
      → passing x candles cfg ≡ passed_of (screened candles cfg)
  unfolding passing
  passing-passed_of [] cfg = refl
  passing-passed_of ((s, cs) ∷ rest) cfg = rw (passing-passed_of rest cfg) refl

  -- What the ranking promises of the results that passed, the bound and the candidates: the
  -- candidates are the first of these results in the descending order of their scores, with others
  -- that are dropped.
  abbrev pub IsRanking : List (ScreenResult F) → ℕ → List (ScreenResult F) → Type 0
  IsRanking found k out =
      (dropped : List (ScreenResult F)) × Perm (out ++ dropped) found
      × AllPassed out
      × Descending out
      × Outranks out dropped
      × (length out ≡ fewer k (length found))

  ranked :
      (found : List (ScreenResult F)) (k : ℕ)
      → IsOrdered F
      → AllPassed found
      → IsRanking found k (take k (sort_by_score found))
  ranked found k o p =
      let sorted = sort_by_score found in
      let order = sort_by_score-Descending o found in
      (
        drop k sorted,
        rw (take-drop k sorted) (sort_by_score-perm found),
        take-AllPassed k sorted (sort_by_score-AllPassed found p),
        take-Descending k sorted order,
        take-Outranks k sorted order,
        length-taken k sorted ∙ ap (fewer k) (length-sort_by_score found),
      )

  -- Where the order is total and transitive, the ranking under a bound is what a cut leaves of
  -- the results of the candidates that pass: with the dropped ones it is a permutation of
  -- them, all of it passed, it is in descending order of score, no dropped result scores
  -- higher than one that it keeps, and it is as long as the bound, or holds all that passed if
  -- they are fewer.
  pub screen_candidates-IsRanking :
      (candles : Dict (List (Candle D))) (cfg : ScreenConfig F) (k : ℕ)
      → IsOrdered F
      → IsRanking (passed_of (screened candles cfg)) k (screen_candidates x candles cfg (some k))
  unfolding screen_candidates
  screen_candidates-IsRanking candles cfg k o =
      rw (passing-passed_of candles cfg)
        (ranked (passed_of (screened candles cfg)) k o (passed_of-AllPassed (screened candles cfg)))
