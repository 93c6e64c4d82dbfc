-- ===== src/Orders/Breaker/HighWater.antt =====
-- The high-water mark over any sequence of assessments.
use auto_trade_stock_demo.Prelude.{
  true, Option, none, some, List, [], ◌∷◌, ◌≡◌, ◌⊎◌, inl, inr, sym, ◌∙◌, arith, Option-cases,
}
use auto_trade_stock_demo.Numeric.{Numeric, IsOrdered, ◌<=◌, ◌>◌, dec, le_refl}
use auto_trade_stock_demo.Clock.{DateTime}
use auto_trade_stock_demo.Orders.Breaker.{CircuitBreaker, assess, update_mark}

-- What one call of `assess` is given.
pub record Reading (D : Type 0) : Type 0 where
  pub equity : Option D
  pub daily_pl_rate : Option D
  pub now : DateTime

module _ {D : Type 0} ⦃n : Numeric D⦄ where
  unfoldable pub assess_all : List (Reading D) → CircuitBreaker D → CircuitBreaker D
  assess_all [] b = b
  assess_all (r ∷ rs) b = assess_all rs (assess b r.equity r.daily_pl_rate r.now).0

  -- The mark, if there is one, is above zero, and so the truthiness test of `assess` never fails
  -- on a mark that is set.
  abbrev pub MarkPositive : Option D → Type 0
  MarkPositive none = Unit
  MarkPositive (some h) = (h > dec 0) ≡ true

  -- `a` is at most the mark.
  abbrev pub Below : D → Option D → Type 0
  Below a none = ⊥
  Below a (some h) = (a <= h) ≡ true

  -- Every positive equity of the readings is at most the mark.
  abbrev pub AllBelow : List (Reading D) → Option D → Type 0
  AllBelow [] m = Unit
  AllBelow (r ∷ rs) m =
      ((e : D) → r.equity ≡ some e → (e > dec 0) ≡ true → Below e m) × AllBelow rs m

  mark_after :
      (b : CircuitBreaker D) (r : Reading D)
      → (assess b r.equity r.daily_pl_rate r.now).0.high_water_mark
        ≡ (update_mark b r.equity).high_water_mark
  unfolding assess
  mark_after b r = ground arith

  -- Some reading shows exactly this equity.
  abbrev pub Shown : D → List (Reading D) → Type 0
  Shown m [] = ⊥
  Shown m (r ∷ rs) = (r.equity ≡ some m) ⊎ Shown m rs

  step_positive :
      (b : CircuitBreaker D) (e : Option D)
      → IsOrdered D
      → MarkPositive b.high_water_mark
      → MarkPositive (update_mark b e).high_water_mark
  unfolding update_mark
  step_positive b none o h = h
  step_positive b (some e) o h = ground arith

  step_grows :
      (b : CircuitBreaker D) (e : Option D) (a : D)
      → IsOrdered D
      → Below a b.high_water_mark
      → Below a (update_mark b e).high_water_mark
  unfolding update_mark
  step_grows b none a o h = h
  step_grows b (some e) a o h = elim (Option-cases b.high_water_mark) [
    | inl p ↦ absurd (rw p at h)
    | inr (m, p) ↦ ground (arith, o.le_trans a m e, o.le_total e m)
  ]

  step_reaches :
      (b : CircuitBreaker D) (e : D)
      → IsOrdered D
      → (e > dec 0) ≡ true
      → Below e (update_mark b (some e)).high_water_mark
  unfolding update_mark
  step_reaches b e o h = elim (Option-cases b.high_water_mark) [
    | inl p ↦ ground (arith, le_refl o e)
    | inr (m, p) ↦ ground (arith, le_refl o e)
  ]

  step_shown :
      (b : CircuitBreaker D) (e : Option D) (m : D)
      → (update_mark b e).high_water_mark ≡ some m
      → (b.high_water_mark ≡ some m) ⊎ (e ≡ some m)
  unfolding update_mark
  step_shown b none m h = inl h
  step_shown b (some e) m h = ground arith

  -- After any readings a mark that is set is above zero.
  assess_all-positive :
      (rs : List (Reading D)) (b : CircuitBreaker D)
      → IsOrdered D
      → MarkPositive b.high_water_mark
      → MarkPositive (assess_all rs b).high_water_mark
  unfolding assess_all
  assess_all-positive [] b o h = h
  assess_all-positive (r ∷ rs) b o h =
      assess_all-positive rs _ o (rw (mark_after b r) (step_positive b r.equity o h))

  assess_all-grows :
      (rs : List (Reading D)) (b : CircuitBreaker D) (a : D)
      → IsOrdered D
      → Below a b.high_water_mark
      → Below a (assess_all rs b).high_water_mark
  unfolding assess_all
  assess_all-grows [] b a o h = h
  assess_all-grows (r ∷ rs) b a o h =
      assess_all-grows rs _ a o (rw (mark_after b r) (step_grows b r.equity a o h))

  reading-Below :
      (r : Reading D) (rs : List (Reading D)) (b : CircuitBreaker D)
      → IsOrdered D
      → (e : D) → r.equity ≡ some e
      → (e > dec 0) ≡ true
      → Below e (assess_all (r ∷ rs) b).high_water_mark
  unfolding assess_all
  reading-Below r rs b o e q h =
      assess_all-grows rs _ e o (rw (mark_after b r, q) (step_reaches b e o h))

  all_below :
      (rs : List (Reading D)) (b : CircuitBreaker D)
      → IsOrdered D
      → AllBelow rs (assess_all rs b).high_water_mark
  unfolding assess_all
  all_below [] b o = tt
  all_below (r ∷ rs) b o =
      (reading-Below r rs b o, all_below rs (assess b r.equity r.daily_pl_rate r.now).0 o)

  shown :
      (rs : List (Reading D)) (b : CircuitBreaker D) (m : D)
      → (assess_all rs b).high_water_mark ≡ some m
      → (b.high_water_mark ≡ some m) ⊎ Shown m rs
  unfolding assess_all
  shown [] b m h = inl h
  shown (r ∷ rs) b m h = elim (shown rs (assess b r.equity r.daily_pl_rate r.now).0 m h) [
    | inr s ↦ inr (inr s)
    | inl p ↦ elim (step_shown b r.equity m (sym (mark_after b r) ∙ p)) [
      | inl q ↦ inl q
      | inr q ↦ inr (inl q)
    ]
  ]

  -- After any sequence of readings the mark is the peak: every positive equity that was read
  -- lies at or below it, and it is the mark from before or one of the equities that were read.
  pub assess_all-peak :
      (rs : List (Reading D)) (b : CircuitBreaker D)
      → IsOrdered D
      → AllBelow rs (assess_all rs b).high_water_mark
        × ((m : D)
            → (assess_all rs b).high_water_mark ≡ some m
            → (b.high_water_mark ≡ some m) ⊎ Shown m rs)
  assess_all-peak rs b o = (all_below rs b o, shown rs b)
