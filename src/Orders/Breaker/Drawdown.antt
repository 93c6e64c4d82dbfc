-- ===== src/Orders/Breaker/Drawdown.antt =====
-- The drawdown over any sequence of assessments.
use auto_trade_stock_demo.Prelude.{
  true, false, Option, none, some, List, [], ◌∷◌, ◌≡◌, refl, arith, if◌then◌else◌, Bool-cases, inl,
  inr, ◌∙◌, sym,
}
use mathlib.Core.Path.{subst, subst₂}
use auto_trade_stock_demo.Numeric.{Numeric, IsOrdered, ◌<=◌, ◌>◌, ◌-◌, ◌/◌, dec, max, le_refl}
use auto_trade_stock_demo.Orders.Breaker.{
  CircuitBreaker, CircuitBreakerConfig, assess, update_mark, fresh,
}
use auto_trade_stock_demo.Orders.Breaker.HighWater.{Reading, assess_all}

module _ {D : Type 0} ⦃n : Numeric D⦄ where
  -- The equity, if it is above zero, or else the one from before.
  abbrev pub latest : Option D → Option D → Option D
  latest none e = e
  latest (some a) e = if a > dec 0 then some a else e

  -- The last equity above zero of the readings, or the one from before.
  abbrev pub last_positive : List (Reading D) → Option D → Option D
  last_positive [] e = e
  last_positive (r ∷ rs) e = last_positive rs (latest r.equity e)

  -- The drawdown of the breaker is that of the equity `e` from the mark, which is above zero and
  -- not below `e`; with no equity there is no mark and no drawdown.
  abbrev pub IsDrawn : Option D → CircuitBreaker D → Type 0
  IsDrawn none b = (b.high_water_mark ≡ none) × (b.drawdown ≡ dec 0)
  IsDrawn (some e) b =
      (m : D) × (b.high_water_mark ≡ some m)
      × ((m > dec 0) ≡ true)
      × ((e <= m) ≡ true)
      × (b.drawdown ≡ max (dec 0) ((m - e) / m))

  assess_mark :
      (b : CircuitBreaker D) (r : Reading D)
      → ((assess b r.equity r.daily_pl_rate r.now).0.high_water_mark
          ≡ (update_mark b r.equity).high_water_mark)
        × ((assess b r.equity r.daily_pl_rate r.now).0.drawdown ≡ (update_mark b r.equity).drawdown)
  unfolding assess
  assess_mark b r = ground arith

  IsDrawn-same :
      (e : Option D) (b d : CircuitBreaker D)
      → d.high_water_mark ≡ b.high_water_mark
      → d.drawdown ≡ b.drawdown
      → IsDrawn e b
      → IsDrawn e d
  IsDrawn-same none b d p q (m, h) = (p ∙ m, q ∙ h)
  IsDrawn-same (some e) b d p q (m, a, k, l, h) = (m, p ∙ a, k, l, q ∙ h)

  -- A new equity above zero, over a mark that the breaker has or has not.
  update_mark-none :
      (b : CircuitBreaker D) (a : D)
      → IsOrdered D
      → (a > dec 0) ≡ true
      → b.high_water_mark ≡ none
      → IsDrawn (some a) (update_mark b (some a))
  unfolding update_mark
  update_mark-none b a o h p = (a, ground arith, h, le_refl o a, ground arith)

  update_mark-some :
      (b : CircuitBreaker D) (a m : D)
      → IsOrdered D
      → (a > dec 0) ≡ true
      → b.high_water_mark ≡ some m
      → (m > dec 0) ≡ true
      → IsDrawn (some a) (update_mark b (some a))
  unfolding update_mark
  update_mark-some b a m o h p k = elim (Bool-cases (a > m)) [
    | inl e ↦ (a, ground arith, h, le_refl o a, ground arith)
    | inr e ↦ (m, ground arith, k, ground arith, ground arith)
  ]

  taken : (a : D) (e : Option D) → (a > dec 0) ≡ true → some a ≡ latest (some a) e
  taken a e h = ground arith

  left : (a : D) (e : Option D) → (a > dec 0) ≡ false → e ≡ latest (some a) e
  left a e h = ground arith

  update_mark-IsDrawn :
      (b : CircuitBreaker D) (e : Option D) (a : D)
      → IsOrdered D
      → (a > dec 0) ≡ true
      → IsDrawn e b
      → IsDrawn (some a) (update_mark b (some a))
  update_mark-IsDrawn b none a o h (m, d) = update_mark-none b a o h m
  update_mark-IsDrawn b (some e) a o h (m, p, k, l, d) = update_mark-some b a m o h p k

  -- An equity that is not above zero changes nothing.
  update_mark_skip :
      (b : CircuitBreaker D) (a : D) → (a > dec 0) ≡ false → update_mark b (some a) ≡ b
  unfolding update_mark
  update_mark_skip b a h = rw h refl

  latest-IsDrawn :
      (b : CircuitBreaker D) (e : Option D) (equity : Option D)
      → IsOrdered D
      → IsDrawn e b
      → IsDrawn (latest equity e) (update_mark b equity)
  unfolding update_mark
  latest-IsDrawn b e none o h = h
  latest-IsDrawn b e (some a) o h = elim (Bool-cases (a > dec 0)) [
    | inl p ↦
        subst (λ x. IsDrawn x (update_mark b (some a))) (taken a e p)
          (update_mark-IsDrawn b e a o p h)
    | inr p ↦ subst₂ IsDrawn (left a e p) (sym (update_mark_skip b a p)) h
  ]

  assess_all-IsDrawn :
      (rs : List (Reading D)) (b : CircuitBreaker D) (e : Option D)
      → IsOrdered D
      → IsDrawn e b
      → IsDrawn (last_positive rs e) (assess_all rs b)
  unfolding assess_all
  assess_all-IsDrawn [] b e o h = h
  assess_all-IsDrawn (r ∷ rs) b e o h =
      let (mark, drawdown) = assess_mark b r in
      assess_all-IsDrawn rs (assess b r.equity r.daily_pl_rate r.now).0 (latest r.equity e) o (
        IsDrawn-same (latest r.equity e) (update_mark b r.equity) _ mark drawdown
          (latest-IsDrawn b e r.equity o h))

  -- Where the order is total and transitive, after any sequence of readings a new breaker has
  -- the drawdown of the last equity above zero that was read, measured from its mark, which is
  -- above zero and not below that equity, and at least zero; readings with no equity or one at
  -- or below zero count for nothing, and with no others there is no mark and the drawdown is
  -- zero.
  pub assess_all-fresh-IsDrawn :
      (rs : List (Reading D)) (config : CircuitBreakerConfig D)
      → IsOrdered D
      → IsDrawn (last_positive rs none) (assess_all rs (fresh config))
  unfolding fresh
  assess_all-fresh-IsDrawn rs config o = assess_all-IsDrawn rs (fresh config) none o (refl, refl)
