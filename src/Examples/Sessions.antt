-- ===== src/Examples/Sessions.antt =====
-- The theorems on whole ticks, on the calendar and on the other parts at concrete inputs.
use auto_trade_stock_demo.Prelude.{
  String, Bool, true, false, none, some, List, [], ◌∷◌, ◌≡◌, ◌≢◌, ◌↔◌, ◌⊎◌, refl, ◌≤◌, ◌<◌, lookup,
  Dict, contains, keys, length,
}
use Prim.Native.Nat.{◌+◌, ◌*◌}
use auto_trade_stock_demo.Numeric.{dec, lit}
use auto_trade_stock_demo.Clock.{clock, kst, day}
use auto_trade_stock_demo.Orders.Models.{TradingMode}
use auto_trade_stock_demo.Orders.Breaker.{CircuitBreaker}
use auto_trade_stock_demo.Orders.Service.{OrderService, placed_as}
use auto_trade_stock_demo.Engine.Exits.{ForcedExit}
use auto_trade_stock_demo.Engine.Judge.{Action, Decision, CandidateContext}
use auto_trade_stock_demo.Engine.Pipeline.{TickInputs, run_tick}
use auto_trade_stock_demo.Engine.Pipeline.Decisions.{decisions_of, symbols_of}
use auto_trade_stock_demo.Engine.Pipeline.Decisions.Forced.{
  ForcedSells, decided, decisions_of-ForcedSells,
}
use auto_trade_stock_demo.Engine.Pipeline.Budget.{WithinBudget, run_tick-WithinBudget}
use auto_trade_stock_demo.Engine.Symbols.{CodeTexts, add_included, resolve_symbols}
use auto_trade_stock_demo.Engine.Symbols.Resolution.{IsDistinct, Starts, resolve_symbols_lem}
use auto_trade_stock_demo.Core.Modes.{load_trading_mode, load_trading_mode-live_iff}
use auto_trade_stock_demo.Toss.{Candle}
use auto_trade_stock_demo.Toss.Caching.{get_candles, get_candles_fresh}
use auto_trade_stock_demo.News.{ReturnWindow, IsAhead, return_window, return_window-IsAhead}
use auto_trade_stock_demo.Examples.Fixed.{Fixed, fixed_numeric}
use auto_trade_stock_demo.Examples.Ticks.{
  floats, screen, candles, texts, a_stock, limits, candidate, verdict,
}

abbrev pub judge : CandidateContext Fixed Fixed → Decision Fixed Fixed
judge c = record (verdict Action.buy) { symbol = c.symbol }

abbrev leaving : Dict (ForcedExit Fixed)
leaving = ("005930", record { symbol = "005930"; reason = [] }) ∷ []

decisions_of-ForcedSells_example :
    ForcedSells leaving (decisions_of leaving (candidate ∷ []) none none judge)
    × ((s : String)
        → contains (keys leaving) s ≡ true
        → contains (symbols_of (candidate ∷ [])) s ≡ true
        → contains (decided (decisions_of leaving (candidate ∷ []) none none judge)) s ≡ true)
decisions_of-ForcedSells_example =
    decisions_of-ForcedSells leaving (candidate ∷ []) none none judge (refl, tt) (λ c. refl)

abbrev breaker : CircuitBreaker Fixed
breaker = record {
  config = record {
    daily_loss_limit = lit 5 2;
    max_drawdown_limit = lit 15 2;
    rearm_drawdown = lit 8 2;
  };
  high_water_mark = none;
  drawdown = dec 0;
  daily_halt_date = none;
  drawdown_halt = false;
  today = none;
  reason = [];
}

abbrev pub service : TradingMode → Bool → OrderService Fixed
service mode kill = record {
  mode = mode;
  config = limits;
  executor = some (λ before o. placed_as "toss-1");
  kill_switch = kill;
  circuit_breaker = breaker;
  seen = [];
  ledger = [];
  placed = [];
  audited = [];
}

-- A tick on one stock that the screener passes, on a Monday at 10:00 in Seoul.
abbrev pub inputs : TickInputs Fixed Fixed
inputs = record {
  toss = record {
    get_holdings = some (record { items = []; market_value_krw = dec 0; daily_rate = none });
    get_stocks = λ symbols. some (a_stock ∷ []);
    get_candles = λ s. some candles;
    get_stock_warnings = λ s. some false;
    get_buying_power = some (dec 2000000);
  };
  texts = texts;
  watchlist = "005930" ∷ [];
  judge = judge;
  now = record { instant = clock 1 0; offset = kst };
  research = none;
  screen_config = screen;
  research_top_n = none;
  entry_gate = none;
  daily_buy_used_krw = dec 100000;
  regime_config = none;
  holdings = none;
  cash_buying_power_krw = none;
  max_buy_candidates = none;
  forced_exits = [];
  new_id = λ k. "id-1";
}

run_tick-WithinBudget_example :
    WithinBudget floats limits inputs (run_tick floats inputs (service TradingMode.live false)).1
run_tick-WithinBudget_example =
    run_tick-WithinBudget floats inputs (service TradingMode.live false) refl

load_trading_mode-live_iff_example :
    ((load_trading_mode (λ s. s) (("TRADING_MODE", "LIVE") ∷ [])).0 ≡ TradingMode.live
      ↔ (◌≡◌ {A = String} "LIVE" "LIVE" × ◌≡◌ {A = String} "" "YES"))
    × (◌≡◌ {A = String} "LIVE" "LIVE"
        → (load_trading_mode (λ s. s) (("TRADING_MODE", "LIVE") ∷ [])).1 ≢ [])
unfolding lookup
load_trading_mode-live_iff_example =
    load_trading_mode-live_iff (λ s. s) (("TRADING_MODE", "LIVE") ∷ [])

-- Friday, 16:00 in Seoul, with a holiday on the Monday after it.
return_window-IsAhead_example :
    (w : ReturnWindow) × (return_window
        (record { instant = 4 * day + clock 7 0; offset = kst })
        (8 ∷ [])
      ≡ some w)
    × IsAhead (record { instant = 4 * day + clock 7 0; offset = kst }) (8 ∷ []) w
return_window-IsAhead_example =
    return_window-IsAhead (record { instant = 4 * day + clock 7 0; offset = kst }) (8 ∷ [])

abbrev code_texts : CodeTexts
code_texts = record { clean = λ s. s; is_digit = λ s. true; zfill = λ s. s; matches = λ s. true }

resolve_symbols_lem_example :
    IsDistinct (resolve_symbols code_texts ("A" ∷ "B" ∷ "C" ∷ []) (some 3) ("B" ∷ []) 1)
    × Starts
        (add_included code_texts ("B" ∷ []) [])
        (resolve_symbols code_texts ("A" ∷ "B" ∷ "C" ∷ []) (some 3) ("B" ∷ []) 1)
    × ((length (resolve_symbols code_texts ("A" ∷ "B" ∷ "C" ∷ []) (some 3) ("B" ∷ []) 1) ≤ 3)
        ⊎ (resolve_symbols code_texts ("A" ∷ "B" ∷ "C" ∷ []) (some 3) ("B" ∷ []) 1
            ≡ add_included code_texts ("B" ∷ []) []))
resolve_symbols_lem_example = resolve_symbols_lem code_texts ("A" ∷ "B" ∷ "C" ∷ []) ("B" ∷ []) 3 1

abbrev one_candle : Fixed → List (Candle Fixed)
one_candle c = record { close_price = c; volume = c } ∷ []

get_candles_fresh_example :
    (2500 < 3000
      → (get_candles
          (get_candles [] "005930" 3000 0 (some (one_candle (dec 100)))).0
          "005930"
          3000
          2500
          none).1
        ≡ some (one_candle (dec 100)))
    × (3000 ≤ 2500
        → (get_candles
            (get_candles [] "005930" 3000 0 (some (one_candle (dec 100)))).0
            "005930"
            3000
            2500
            none).1
          ≡ none)
    × ((get_candles {D = Fixed} [] "005930" 3000 0 none).0 ≡ [])
unfolding lookup
get_candles_fresh_example =
    get_candles_fresh [] "005930" 3000 0 2500 (one_candle (dec 100)) none refl
