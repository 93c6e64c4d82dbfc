-- ===== src/Engine/Regime.antt =====
-- The market regime (server/app/engine/regime.py): from the closes of a market proxy to the
-- exposure multiplier of new buys.
pub mod Multiplier
use Prim.Native.Nat.{◌+◌ as nat_add}
use auto_trade_stock_demo.Prelude.{
  ℕ, String, Bool, true, false, Option, none, some, List, [], ◌∷◌, take_last, Message, Part,
  if◌then◌else◌,
}
use auto_trade_stock_demo.Numeric.{Numeric, ◌*◌, ◌>=◌, dec, lit}
use auto_trade_stock_demo.Engine.Costs.{Floats, realized_daily_vol}

pub data RegimeLevel : Type 0 where
  calm elevated stress unknown : RegimeLevel

pub record RegimeConfig (D : Type 0) : Type 0 where
  pub symbol : String
  pub lookback : ℕ
  pub calm_vol : D
  pub stress_vol : D
  pub elevated_multiplier : D
  pub stress_multiplier : D

pub record RegimeAssessment (D : Type 0) : Type 0 where
  pub level : RegimeLevel
  pub daily_vol : Option D
  pub multiplier : D
  pub reason : Message D

module _ {D : Type 0} ⦃n : Numeric D⦄ where
  -- `RegimeConfig()`
  unfoldable pub default_regime : RegimeConfig D
  default_regime = record {
    symbol = "069500";
    lookback = 20;
    calm_vol = lit 10 3;
    stress_vol = lit 20 3;
    elevated_multiplier = lit 5 1;
    stress_multiplier = dec 0;
  }

  abbrev explain : String → D → String → D → String → Message D
  explain before vol sign limit after =
      Part.lit before
      ∷ Part.fmt ".2f" (vol * dec 100)
      ∷ Part.lit sign
      ∷ Part.fmt ".1f" (limit * dec 100)
      ∷ Part.lit after
      ∷ []

  unfoldable pub classify_vol : RegimeConfig D → Option D → RegimeAssessment D
  classify_vol cfg none = record {
    level = unknown;
    daily_vol = none;
    multiplier = dec 1;
    reason = Part.lit "레짐 판정 불가(표본 부족) — 배수 1.0" ∷ [];
  }
  classify_vol cfg (some vol) =
      if vol >= cfg.stress_vol
      then record {
        level = stress;
        daily_vol = some vol;
        multiplier = cfg.stress_multiplier;
        reason = explain "시장 σ " vol "% ≥ " cfg.stress_vol "% — 신규 진입 중단";
      }
      else if vol >= cfg.calm_vol
      then record {
        level = elevated;
        daily_vol = some vol;
        multiplier = cfg.elevated_multiplier;
        reason = explain "시장 σ " vol "% ≥ " cfg.calm_vol "% — 노출 축소";
      }
      else record {
        level = calm;
        daily_vol = some vol;
        multiplier = dec 1;
        reason = explain "시장 σ " vol "% < " cfg.calm_vol "% — 정상";
      }

-- `list(closes)[-(lookback + 1):] if closes else None`
unfoldable pub window : {F : Type 0} → ℕ → Option (List F) → Option (List F)
window lookback none = none
window lookback (some []) = none
window lookback (some (c ∷ cs)) = some (take_last (nat_add lookback 1) (c ∷ cs))

unfoldable pub assess_regime :
    {F D : Type 0} ⦃m : Numeric F⦄ ⦃n : Numeric D⦄
    → Floats F D
    → Option (List F)
    → RegimeConfig D
    → RegimeAssessment D
unfolding window classify_vol
assess_regime x closes cfg = classify_vol cfg (realized_daily_vol x (window cfg.lookback closes) 5)
