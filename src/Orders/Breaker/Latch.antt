-- ===== src/Orders/Breaker/Latch.antt =====
-- The drawdown latch: its hysteresis and its reset.
use auto_trade_stock_demo.Prelude.{true, false, Option, some, List, [], ◌∷◌, ◌≡◌, arith}
use auto_trade_stock_demo.Numeric.{Numeric, IsOrdered, IsRounded, ◌<=◌, ◌>◌, ◌-◌, ◌/◌, dec, le_refl}
use auto_trade_stock_demo.Clock.{DateTime}
use auto_trade_stock_demo.Orders.Breaker.{
  CircuitBreaker, assess, update_mark, update_latch, reset, loss_reached,
}
use auto_trade_stock_demo.Orders.Breaker.HighWater.{Reading, assess_all}

module _ {D : Type 0} ⦃n : Numeric D⦄ where
  -- The drawdown stays above the level at which the latch is released.
  abbrev pub StaysDeep : List (Reading D) → CircuitBreaker D → Type 0
  StaysDeep [] b = Unit
  StaysDeep (r ∷ rs) b =
      let b' = (assess b r.equity r.daily_pl_rate r.now).0 in
      ((b'.drawdown <= b.config.rearm_drawdown) ≡ false) × StaysDeep rs b'

  latch_holds :
      (b : CircuitBreaker D) (e rate : Option D) (t : DateTime)
      → b.drawdown_halt ≡ true
      → ((assess b e rate t).0.drawdown <= b.config.rearm_drawdown) ≡ false
      → (assess b e rate t).0.drawdown_halt ≡ true
  unfolding assess
  latch_holds b e rate t h d = ground arith

  -- A latched breaker stays latched through any readings, also ones with no equity, as long as
  -- the drawdown does not come back to the release level.
  pub assess_all-stays_halted :
      (rs : List (Reading D)) (b : CircuitBreaker D)
      → b.drawdown_halt ≡ true
      → StaysDeep rs b
      → (assess_all rs b).drawdown_halt ≡ true
  unfolding assess_all
  assess_all-stays_halted [] b h d = h
  assess_all-stays_halted (r ∷ rs) b h (d, ds) =
      assess_all-stays_halted rs (assess b r.equity r.daily_pl_rate r.now).0
        (latch_holds b r.equity r.daily_pl_rate r.now h d) ds

  reset_drawdown :
      (b : CircuitBreaker D) (e : D)
      → IsOrdered D
      → IsRounded D
      → (e > dec 0) ≡ true
      → (b.config.max_drawdown_limit > dec 0) ≡ true
      → (update_latch (update_mark (reset b) (some e)) (some e)).drawdown_halt ≡ false
  unfolding reset update_mark update_latch
  reset_drawdown b e o r p l = ground (
    arith,
    r.div_nonpos (e - e) e,
    r.sub_nonpos e e,
    le_refl o e,
    o.le_trans b.config.max_drawdown_limit (dec 0) (dec 0),
    le_refl o (dec 0),
    o.le_trans b.config.max_drawdown_limit ((e - e) / e) (dec 0),
  )

  -- After a reset a positive equity is the new mark, if the drawdown limit is above zero, and
  -- the assessment trips exactly if the daily loss limit is reached.
  pub reset-assess :
      (b : CircuitBreaker D) (e : D) (rate : Option D) (t : DateTime)
      → IsOrdered D
      → IsRounded D
      → (e > dec 0) ≡ true
      → (b.config.max_drawdown_limit > dec 0) ≡ true
      → ((assess (reset b) (some e) rate t).0.high_water_mark ≡ some e)
        × ((assess (reset b) (some e) rate t).1 ≡ loss_reached b.config rate)
  unfolding assess reset
  reset-assess b e rate t o r p l = ground (arith, reset_drawdown b e o r p l)
