-- ===== src/Engine/Indicators.antt =====
-- Technical indicators (server/app/engine/indicators.py): the moving average and Wilder's RSI.
pub mod Bounds
use Prim.Native.Nat.{◌+◌ as nat_add, ◌-◌ as nat_sub}
use auto_trade_stock_demo.Prelude.{
  ℕ, zero, suc, Bool, true, false, ◌&&◌, ◌||◌, Option, none, some, List, [], ◌∷◌, ltb, eqb, length,
  take, drop, take_last, if◌then◌else◌,
}
use auto_trade_stock_demo.Numeric.{Numeric, ◌+◌, ◌-◌, ◌*◌, ◌/◌, neg, ◌=?◌, dec, max}

module _ {F : Type 0} ⦃m : Numeric F⦄ where
  -- `sum(xs)`, from the left, on top of `acc`.
  unfoldable pub sum_from : F → List F → F
  sum_from acc [] = acc
  sum_from acc (x ∷ xs) = sum_from (acc + x) xs

  unfoldable pub sma : List F → ℕ → Option F
  unfolding sum_from
  sma values period =
      if eqb period 0 || ltb (length values) period
      then none
      else some (sum_from (dec 0) (take_last period values) / dec period)

  -- The gains `max(d, 0.0)` and the losses `max(-d, 0.0)` of consecutive values.
  unfoldable pub gains_of : List F → List F
  gains_of [] = []
  gains_of (a ∷ []) = []
  gains_of (a ∷ b ∷ rest) = max (b - a) (dec 0) ∷ gains_of (b ∷ rest)

  unfoldable pub losses_of : List F → List F
  losses_of [] = []
  losses_of (a ∷ []) = []
  losses_of (a ∷ b ∷ rest) = max (neg (b - a)) (dec 0) ∷ losses_of (b ∷ rest)

  -- Wilder's smoothing over the rest of the values.
  unfoldable pub smooth : ℕ → F → List F → F
  smooth period avg [] = avg
  smooth period avg (g ∷ gs) = smooth period ((avg * dec (nat_sub period 1) + g) / dec period) gs

  unfoldable pub average : ℕ → List F → F
  unfolding smooth sum_from
  average period xs =
      smooth period (sum_from (dec 0) (take period xs) / dec period) (drop period xs)

  unfoldable pub rsi_of : F → F → F
  rsi_of avg_gain avg_loss =
      if avg_loss =? dec 0 then dec 100 else dec 100 - dec 100 / (dec 1 + avg_gain / avg_loss)

  unfoldable pub rsi : List F → ℕ → Option F
  unfolding average gains_of losses_of rsi_of
  rsi values period =
      if eqb period 0 || ltb (length values) (nat_add period 1)
      then none
      else some (rsi_of (average period (gains_of values)) (average period (losses_of values)))
