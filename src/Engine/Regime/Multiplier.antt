-- ===== src/Engine/Regime/Multiplier.antt =====
-- How the exposure multiplier follows the volatility.
use Prim.Native.Nat.{◌+◌ as nat_add}
use auto_trade_stock_demo.Prelude.{
  ℕ, ◌≤◌, true, some, List, [], ◌∷◌, ◌++◌, ◌≡◌, refl, ap, arith, length, take_last-append,
}
use auto_trade_stock_demo.Numeric.{Numeric, IsOrdered, ◌<=◌, dec, le_refl}
use auto_trade_stock_demo.Engine.Costs.{Floats, realized_daily_vol}
use auto_trade_stock_demo.Engine.Regime.{RegimeConfig, classify_vol, window, assess_regime}

module _ {D : Type 0} ⦃n : Numeric D⦄ where
  -- A higher volatility never gives a larger exposure multiplier, if the thresholds and the
  -- multipliers of the configuration are in order.
  pub classify_vol-antitone :
      (cfg : RegimeConfig D) (v w : D)
      → IsOrdered D
      → (cfg.calm_vol <= cfg.stress_vol) ≡ true
      → (cfg.stress_multiplier <= cfg.elevated_multiplier) ≡ true
      → (cfg.elevated_multiplier <= dec 1) ≡ true
      → (v <= w) ≡ true
      → ((classify_vol cfg (some w)).multiplier <= (classify_vol cfg (some v)).multiplier) ≡ true
  unfolding classify_vol
  classify_vol-antitone cfg v w o t p q h = ground (
    arith,
    o.le_trans cfg.stress_vol v w,
    o.le_trans cfg.calm_vol v w,
    o.le_trans cfg.calm_vol cfg.stress_vol w,
    o.le_trans cfg.stress_multiplier cfg.elevated_multiplier (dec 1),
    le_refl o cfg.stress_multiplier,
    le_refl o cfg.elevated_multiplier,
    le_refl o (dec 1),
  )

window-append :
    {F : Type 0} (k : ℕ) (xs : List F) (y : F) (ys : List F)
    → nat_add k 1 ≤ length (y ∷ ys)
    → window k (some (xs ++ y ∷ ys)) ≡ window k (some (y ∷ ys))
unfolding window
window-append k [] y ys h = refl
window-append k (x ∷ xs) y ys h = ap some (take_last-append (nat_add k 1) (x ∷ xs) (y ∷ ys) h)

-- Only the last `lookback + 1` closes count: older ones do not change the assessment.
pub assess_regime_window :
    {F D : Type 0} ⦃m : Numeric F⦄ ⦃n : Numeric D⦄ (x : Floats F D) (cfg : RegimeConfig D)
    (xs : List F) (y : F) (ys : List F)
    → nat_add cfg.lookback 1 ≤ length (y ∷ ys)
    → assess_regime x (some (xs ++ y ∷ ys)) cfg ≡ assess_regime x (some (y ∷ ys)) cfg
unfolding assess_regime
assess_regime_window x cfg xs y ys h =
    ap (λ w. classify_vol cfg (realized_daily_vol x w 5)) (window-append cfg.lookback xs y ys h)
