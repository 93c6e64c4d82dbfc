-- ===== src/Engine/Pipeline/Stages.antt =====
-- Steps 1 to 8 of `run_tick`: the symbols, the screening, the reduction of the buy candidates, and
-- the decisions, the forced exits before those of the judge.
use auto_trade_stock_demo.Prelude.{
  ℕ, String, Bool, false, not, ◌&&◌, Option, none, some, List, [], ◌∷◌, ◌++◌, map, Dict, lookup,
  insert, contains, length, take, take_last, ltb, Part, if◌then◌else◌,
}
use auto_trade_stock_demo.Numeric.{Numeric, ◌+◌, ◌*◌, ◌/◌, dec}
use auto_trade_stock_demo.Toss.{Candle, Stock, HoldingItem, Holdings}
use auto_trade_stock_demo.Engine.Costs.{Floats}
use auto_trade_stock_demo.Engine.Regime.{
  RegimeAssessment, RegimeConfig, RegimeLevel, calm, elevated, stress, unknown, assess_regime,
}
use auto_trade_stock_demo.Engine.Screener.{
  ScreenConfig, ScreenIndicators, ScreenResult, screen_symbol, sort_by_score,
}
use auto_trade_stock_demo.Engine.Universe.{Texts, default_universe, partition_universe}

-- The calls of the broker: `none` where the call raises. A warning is a call whose answer is not
-- empty.
pub record Toss (D : Type 0) : Type 0 where
  pub get_holdings : Option (Holdings D)
  pub get_stocks : List String → Option (List (Stock D))
  pub get_candles : String → Option (List (Candle D))
  pub get_stock_warnings : String → Option Bool
  pub get_buying_power : Option D

-- What step 4 collects.
pub record Screening (F : Type 0) : Type 0 where
  pub buy_results : List (ScreenResult F)
  pub holding_indicators : Dict (ScreenIndicators F)
  pub recent : Dict (List F)
  pub adv20 : Dict F

abbrev pub no_screening : {F : Type 0} → Screening F
no_screening = record { buy_results = []; holding_indicators = []; recent = []; adv20 = [] }

abbrev pub held_symbols : {D : Type 0} → Holdings D → List String
held_symbols {D = D} h = map (λ (i : HoldingItem D). i.symbol) h.items

-- The stocks of the answer that are among the symbols, in the order of the symbols.
unfoldable pub known_stocks : {D : Type 0} → Dict (Stock D) → List String → List (Stock D)
known_stocks stocks [] = []
known_stocks stocks (s ∷ ss) =
    let rest = known_stocks stocks ss in elim (lookup s stocks) [ none ↦ rest | some x ↦ x ∷ rest ]

abbrev pub stock_symbols : {D : Type 0} → List (Stock D) → List String
stock_symbols {D = D} ss = map (λ (s : Stock D). s.symbol) ss

-- Step 3: the eligible symbols, and the held ones, which may always be sold.
unfoldable pub eligible_symbols :
    {D : Type 0} → Texts → Dict (Stock D) → List String → List String → List String
unfolding known_stocks
eligible_symbols t stocks symbols held =
    stock_symbols (partition_universe t (known_stocks stocks symbols) default_universe).0 ++ held

module _ {F D : Type 0} ⦃m : Numeric F⦄ (x : Floats F D) where
  unfoldable pub traded : List (Candle D) → F → F
  traded [] acc = acc
  traded (c ∷ cs) acc = traded cs (acc + x.float_of c.close_price * x.float_of c.volume)

  abbrev add_adv : String → List (Candle D) → Dict F → Dict F
  add_adv sym [] adv = adv
  add_adv sym (c ∷ cs) adv = insert sym (traded (c ∷ cs) (dec 0) / dec (length (c ∷ cs))) adv

  -- The round of step 4 on one symbol.
  unfoldable pub screen_one :
      ScreenConfig F → List String → String → List (Candle D) → Screening F → Screening F
  unfolding traded
  screen_one cfg held sym candles acc =
      let result = screen_symbol x sym candles cfg in
      record {
        recent = insert sym (map (λ (c : Candle D). x.float_of c.close_price) candles) acc.recent;
        adv20 = add_adv sym (take_last 20 candles) acc.adv20;
        holding_indicators =
            if contains held sym
            then insert sym result.indicators acc.holding_indicators
            else acc.holding_indicators;
        buy_results =
            if not (contains held sym) && result.passed
            then acc.buy_results ++ result ∷ []
            else acc.buy_results;
      }

  abbrev screen_candles :
      ScreenConfig F
      → List String
      → String
      → Option (List (Candle D))
      → Screening F
      → Option (Screening F)
  screen_candles cfg held sym none acc = none
  screen_candles cfg held sym (some cs) acc = some (screen_one cfg held sym cs acc)

  abbrev pub and_then : {A B : Type 0} → Option A → (A → Option B) → Option B
  and_then none f = none
  and_then (some a) f = f a

  -- Step 4: a symbol that is not eligible is passed over.
  unfoldable pub screen_all :
      Toss D
      → ScreenConfig F
      → List String
      → List String
      → List String
      → Screening F
      → Option (Screening F)
  unfolding screen_one
  screen_all toss cfg eligible held [] acc = some acc
  screen_all toss cfg eligible held (s ∷ ss) acc =
      and_then
        (if contains eligible s
          then screen_candles cfg held s (toss.get_candles s) acc
          else some acc)
        (λ acc'. screen_all toss cfg eligible held ss acc')

abbrev warns : Option Bool → Bool
warns none = false
warns (some b) = b

module _ {F : Type 0} ⦃m : Numeric F⦄ where
  -- Step 4b: the best by score, if there are more than the limit.
  unfoldable pub reduce_buys : Option ℕ → List (ScreenResult F) → List (ScreenResult F)
  reduce_buys none rs = rs
  reduce_buys (some k) rs = if ltb k (length rs) then take k (sort_by_score rs) else rs

module _ {F D : Type 0} where
  -- Step 4c: the candidates without a warning, and the symbols with one.
  unfoldable pub split_warned : Toss D → List (ScreenResult F) → List (ScreenResult F) × List String
  split_warned toss [] = ([], [])
  split_warned toss (r ∷ rs) =
      let (kept, warned) = split_warned toss rs in
      if warns (toss.get_stock_warnings r.symbol)
      then (kept, r.symbol ∷ warned)
      else (r ∷ kept, warned)

abbrev pub level_name : RegimeLevel → String
level_name calm = "CALM"
level_name elevated = "ELEVATED"
level_name stress = "STRESS"
level_name unknown = "UNKNOWN"

module _ {F D : Type 0} ⦃m : Numeric F⦄ ⦃n : Numeric D⦄ (x : Floats F D) where
  -- Step 6b: a failing call of the proxy leaves the exposure alone.
  unfoldable pub regime_of : Toss D → RegimeConfig D → RegimeAssessment D
  regime_of toss cfg = elim (toss.get_candles cfg.symbol) [
    | none ↦ record {
      level = unknown;
      daily_vol = none;
      multiplier = dec 1;
      reason = Part.lit "레짐 프록시(" ∷ Part.lit cfg.symbol ∷ Part.lit ") 조회 실패 — 배수 1.0" ∷ [];
    }
    | some cs ↦ assess_regime x (some (map (λ (c : Candle D). x.float_of c.close_price) cs)) cfg
  ]
