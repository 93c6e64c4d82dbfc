-- ===== src/Engine/Screener.antt =====
-- The screener (server/app/engine/screener.py): indicators from the candles, the filters, the
-- score and the ranking.
pub mod Ranking
pub mod Filters
use auto_trade_stock_demo.Prelude.{
  ℕ, String, Bool, true, false, not, ◌&&◌, Option, none, some, List, [], ◌∷◌, ◌++◌, map, Dict, ltb,
  length, take, get_last?, Message, Part, if◌then◌else◌,
}
use auto_trade_stock_demo.Numeric.{Numeric, ◌-◌, ◌/◌, ◌<=◌, ◌>=◌, ◌>◌, dec, truthy}
use auto_trade_stock_demo.Toss.{Candle}
use auto_trade_stock_demo.Engine.Costs.{Floats}
use auto_trade_stock_demo.Engine.Indicators.{sum_from, sma, rsi}

pub record ScreenConfig (F : Type 0) : Type 0 where
  pub min_history : ℕ
  pub sma_short : ℕ
  pub sma_long : ℕ
  pub rsi_period : ℕ
  pub rsi_overbought : F
  pub min_avg_volume : F
  pub min_close_price : F
  pub require_uptrend : Bool

pub record ScreenIndicators (F : Type 0) : Type 0 where
  pub last_close : F
  pub sma_short : Option F
  pub sma_long : Option F
  pub rsi : Option F
  pub avg_volume : F

pub record ScreenResult (F : Type 0) : Type 0 where
  pub symbol : String
  pub passed : Bool
  pub score : F
  pub indicators : ScreenIndicators F
  pub reasons : List (Message F)

-- A reason that the test adds.
abbrev reason_if : {F : Type 0} → Bool → Message F → List (Message F)
reason_if true m = m ∷ []
reason_if false m = []

abbrev pub is_empty {ℓ} : {A : Type ℓ} → List A → Bool
is_empty [] = true
is_empty (x ∷ xs) = false

module _ {F : Type 0} ⦃m : Numeric F⦄ where
  unfoldable pub default_screen : ScreenConfig F
  default_screen = record {
    min_history = 20;
    sma_short = 5;
    sma_long = 20;
    rsi_period = 14;
    rsi_overbought = dec 70;
    min_avg_volume = dec 100000;
    min_close_price = dec 1000;
    require_uptrend = true;
  }

  abbrev score_of : Option F → Option F → F
  score_of none l = dec 0
  score_of (some s) none = dec 0
  score_of (some s) (some l) = if truthy l then (s - l) / l else dec 0

  -- `_score(ind)`
  unfoldable pub score : ScreenIndicators F → F
  score ind = score_of ind.sma_short ind.sma_long

  -- `closes[-1] if closes else 0.0`
  abbrev last_or_zero : Option F → F
  last_or_zero none = dec 0
  last_or_zero (some c) = c

  -- `sum(xs) / len(xs) if xs else 0.0`
  abbrev mean_or_zero : List F → F
  mean_or_zero [] = dec 0
  mean_or_zero (v ∷ vs) = sum_from (dec 0) (v ∷ vs) / dec (length (v ∷ vs))

  unfoldable pub indicators_of : List F → List F → ScreenConfig F → ScreenIndicators F
  indicators_of closes volumes cfg = record {
    last_close = last_or_zero (get_last? closes);
    sma_short = sma closes cfg.sma_short;
    sma_long = sma closes cfg.sma_long;
    rsi = rsi closes cfg.rsi_period;
    avg_volume = mean_or_zero volumes;
  }

  -- The last close against the long average, where there is one.
  abbrev pub below : F → Option F → Bool
  below close none = false
  below close (some l) = not (close >= l)

  abbrev pub overbought : ScreenConfig F → Option F → List (Message F)
  overbought cfg none = []
  overbought cfg (some v) = reason_if (v > cfg.rsi_overbought) (
      Part.lit "overbought(rsi="
      ∷ Part.fmt ".1f" v
      ∷ Part.lit ">"
      ∷ Part.fmt ".0f" cfg.rsi_overbought
      ∷ Part.lit ")"
      ∷ [])

  unfoldable pub reasons_of : ℕ → ScreenIndicators F → ScreenConfig F → List (Message F)
  reasons_of history ind cfg =
      reason_if (ltb history cfg.min_history) (
        Part.lit "insufficient_history("
        ∷ Part.nat history
        ∷ Part.lit "<"
        ∷ Part.nat cfg.min_history
        ∷ Part.lit ")"
        ∷ [])
      ++ reason_if (not (ind.last_close >= cfg.min_close_price)) (
          Part.lit "penny_stock(close="
          ∷ Part.fmt ".0f" ind.last_close
          ∷ Part.lit "<"
          ∷ Part.fmt ".0f" cfg.min_close_price
          ∷ Part.lit ")"
          ∷ [])
      ++ reason_if (not (ind.avg_volume >= cfg.min_avg_volume)) (
          Part.lit "illiquid(avg_vol="
          ∷ Part.fmt ".0f" ind.avg_volume
          ∷ Part.lit "<"
          ∷ Part.fmt ".0f" cfg.min_avg_volume
          ∷ Part.lit ")"
          ∷ [])
      ++ reason_if (cfg.require_uptrend && below ind.last_close ind.sma_long)
          (Part.lit "below_sma_long(no_uptrend)" ∷ [])
      ++ overbought cfg ind.rsi

  -- `screen_symbol`, from the closes and the volumes as floats.
  unfoldable pub screen_series : String → List F → List F → ScreenConfig F → ScreenResult F
  unfolding indicators_of reasons_of score
  screen_series symbol closes volumes cfg =
      let ind = indicators_of closes volumes cfg in
      let reasons = reasons_of (length closes) ind cfg in
      record {
        symbol = symbol;
        passed = is_empty reasons;
        score = score ind;
        indicators = ind;
        reasons = reasons;
      }

  -- The stable sort by score, the highest first.
  unfoldable pub place : ScreenResult F → List (ScreenResult F) → List (ScreenResult F)
  place r [] = r ∷ []
  place r (q ∷ qs) = let rest = place r qs in if r.score >= q.score then r ∷ q ∷ qs else q ∷ rest

  unfoldable pub sort_by_score : List (ScreenResult F) → List (ScreenResult F)
  unfolding place
  sort_by_score [] = []
  sort_by_score (r ∷ rs) = place r (sort_by_score rs)

  -- `passed[:top_n] if top_n is not None else passed`
  abbrev pub top : Option ℕ → List (ScreenResult F) → List (ScreenResult F)
  top none rs = rs
  top (some k) rs = take k rs

module _ {F D : Type 0} ⦃m : Numeric F⦄ (x : Floats F D) where
  abbrev closes_of : List (Candle D) → List F
  closes_of cs = map (λ (c : Candle D). x.float_of c.close_price) cs

  abbrev volumes_of : List (Candle D) → List F
  volumes_of cs = map (λ (c : Candle D). x.float_of c.volume) cs

  unfoldable pub screen_symbol : String → List (Candle D) → ScreenConfig F → ScreenResult F
  unfolding screen_series
  screen_symbol symbol candles cfg =
      screen_series symbol (closes_of candles) (volumes_of candles) cfg

  unfoldable pub passing : Dict (List (Candle D)) → ScreenConfig F → List (ScreenResult F)
  passing [] cfg = []
  passing ((s, cs) ∷ rest) cfg =
      let others = passing rest cfg in
      let r = screen_symbol s cs cfg in if r.passed then r ∷ others else others

  unfoldable pub screen_candidates :
      Dict (List (Candle D)) → ScreenConfig F → Option ℕ → List (ScreenResult F)
  unfolding passing sort_by_score
  screen_candidates candles cfg top_n = top top_n (sort_by_score (passing candles cfg))
