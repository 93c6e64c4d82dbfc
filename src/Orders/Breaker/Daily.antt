-- ===== src/Orders/Breaker/Daily.antt =====
-- The daily latch: tripped for the rest of its day, and released by the next.
use auto_trade_stock_demo.Prelude.{
  ℕ, true, ◌||◌, Option, some, List, [], ◌∷◌, ◌≡◌, sym, ap, ◌∙◌, arith,
}
use auto_trade_stock_demo.Numeric.{Numeric}
use auto_trade_stock_demo.Clock.{DateTime, date}
use auto_trade_stock_demo.Orders.Breaker.{CircuitBreaker, assess, tripped, loss_reached, same_date}
use auto_trade_stock_demo.Orders.Breaker.HighWater.{Reading, assess_all}

module _ {D : Type 0} ⦃n : Numeric D⦄ where
  -- All the readings fall on one date.
  abbrev pub AllOn : ℕ → List (Reading D) → Type 0
  AllOn d [] = Unit
  AllOn d (r ∷ rs) = (date r.now ≡ d) × AllOn d rs

  halt_kept :
      (b : CircuitBreaker D) (e rate : Option D) (t : DateTime)
      → b.daily_halt_date ≡ some (date t)
      → ((assess b e rate t).0.daily_halt_date ≡ some (date t))
        × (tripped (assess b e rate t).0 ≡ true)
  unfolding assess tripped
  halt_kept b e rate t h = ground arith

  -- A breaker that is tripped with the loss of a day recorded stays tripped through all later
  -- assessments of that day, whatever they read.
  pub assess_all-rest_of_day :
      (rs : List (Reading D)) (b : CircuitBreaker D) (d : ℕ)
      → b.daily_halt_date ≡ some d
      → tripped b ≡ true
      → AllOn d rs
      → tripped (assess_all rs b) ≡ true
  unfolding assess_all
  assess_all-rest_of_day [] b d h t a = t
  assess_all-rest_of_day (r ∷ rs) b d h t (s, a) =
      let (k, u) = halt_kept b r.equity r.daily_pl_rate r.now (h ∙ ap some (sym s)) in
      assess_all-rest_of_day rs (assess b r.equity r.daily_pl_rate r.now).0 d (k ∙ ap some s) u a

  -- What `assess` answers: the drawdown latch that it leaves, a loss limit that is reached now, or
  -- one that was reached before on the same date. So the daily latch of an earlier date is over.
  pub assess_answer :
      (b : CircuitBreaker D) (e rate : Option D) (t : DateTime)
      → (assess b e rate t).1 ≡ (
          (assess b e rate t).0.drawdown_halt
          || (loss_reached b.config rate || same_date b.daily_halt_date (some (date t))))
  unfolding assess
  assess_answer b e rate t = ground arith
