-- ===== src/Examples/Ticks.antt =====
-- The theorems on the stages of a tick at concrete inputs.
use auto_trade_stock_demo.Prelude.{true, none, some, List, [], ◌∷◌, ◌≡◌, refl, Dict, map, ◌==◌}
use auto_trade_stock_demo.Numeric.{◌>=◌, dec, lit}
use auto_trade_stock_demo.Clock.{clock}
use auto_trade_stock_demo.Toss.{Candle, Stock}
use auto_trade_stock_demo.Orders.Models.{Side}
use auto_trade_stock_demo.Orders.Guardrails.{GuardrailConfig}
use auto_trade_stock_demo.Engine.Costs.{Floats}
use auto_trade_stock_demo.Engine.Screener.{ScreenConfig, ScreenIndicators, screen_candidates}
use auto_trade_stock_demo.Engine.Screener.Ranking.{
  passed_of, screened, IsRanking, screen_candidates-IsRanking,
}
use auto_trade_stock_demo.Engine.Universe.{Texts}
use auto_trade_stock_demo.Engine.Judge.{Action, Decision, CandidateContext}
use auto_trade_stock_demo.Engine.Allocator.{allocate, price_of, request}
use auto_trade_stock_demo.Engine.Allocator.Ceilings.{KeepsLimits, allocate-KeepsLimits}
use auto_trade_stock_demo.Examples.Fixed.{
  Fixed, fixed_numeric, fixed-IsOrdered, fixed-IsRounded, fixed-IsScaled, fixed-IsFloored,
}

abbrev pub floats : Floats Fixed Fixed
floats = record { stdev = λ xs. lit 2 2; decimal_of = λ a. a; float_of = λ a. a }

abbrev pub screen : ScreenConfig Fixed
screen = record {
  min_history = 3;
  sma_short = 1;
  sma_long = 3;
  rsi_period = 2;
  rsi_overbought = dec 90;
  min_avg_volume = dec 10;
  min_close_price = dec 50;
  require_uptrend = true;
}

abbrev rising : List Fixed
rising = dec 100 ∷ dec 98 ∷ dec 105 ∷ []

abbrev pub candles : List (Candle Fixed)
candles = map (λ c. record { close_price = c; volume = dec 1000 }) rising

abbrev market : Dict (List (Candle Fixed))
market = ("005930", candles) ∷ ("000660", candles) ∷ []

screen_candidates-IsRanking_example :
    IsRanking floats
      (passed_of (screened floats market screen))
      1
      (screen_candidates floats market screen (some 1))
screen_candidates-IsRanking_example =
    screen_candidates-IsRanking floats market screen 1 fixed-IsOrdered

abbrev pub texts : Texts
texts = record { upper = λ s. s; search = λ pattern s. s == "삼성전자우" }

abbrev pub a_stock : Stock Fixed
a_stock = record {
  symbol = "005930";
  name = "삼성전자";
  market = some "KOSPI";
  security_type = some "STOCK";
  is_common_share = none;
  status = some "ACTIVE";
  currency = some "KRW";
  leverage_factor = none;
  korean_market_detail = none;
}

abbrev indicators : ScreenIndicators Fixed
indicators = record {
  last_close = dec 1000;
  sma_short = none;
  sma_long = none;
  rsi = none;
  avg_volume = dec 100;
}

abbrev pub candidate : CandidateContext Fixed Fixed
candidate = record {
  symbol = "005930";
  name = "삼성전자";
  market = none;
  currency = none;
  indicators = some indicators;
  score = lit 5 2;
  already_held = true;
  held_quantity = some (dec 5);
  avg_purchase_price = some (dec 900);
  pl_rate = none;
  recent_closes = some rising;
  portfolio_value_krw = some (dec 500000);
  cash_buying_power_krw = some (dec 300000);
  research = none;
  market_regime = none;
}

abbrev pub verdict : Action → Decision Fixed Fixed
verdict a = record {
  action = a;
  symbol = "005930";
  confidence = lit 5 1;
  rationale = [];
  decision_price = none;
}

abbrev pub limits : GuardrailConfig Fixed
limits = record {
  per_order_max_krw = dec 100000;
  daily_buy_cap_krw = dec 500000;
  max_positions = 10;
  per_symbol_max_weight = lit 10 2;
  market_open = clock 9 0;
  market_close = clock 15 30;
  enforce_market_hours = true;
  holidays = [];
}

-- The room of the weight limit is 75000, and half of it is asked for.
allocate-KeepsLimits_example :
    (q : Fixed) × (request Side.buy "005930" (dec 37) (dec 1000) none "id-1"
      ≡ request Side.buy "005930" q (dec 1000) none "id-1")
    × ((q >= dec 1) ≡ true)
    × KeepsLimits floats candidate limits (dec 1000) q
unfolding price_of allocate
allocate-KeepsLimits_example =
    allocate-KeepsLimits floats (verdict Action.buy) candidate limits none "id-1" (dec 1) (dec 1000)
      (request Side.buy "005930" (dec 37) (dec 1000) none "id-1") fixed-IsOrdered fixed-IsRounded
      fixed-IsScaled fixed-IsFloored refl refl refl refl refl
