-- ===== src/Examples/Controls.antt =====
-- The theorems on the reconciliation, the start and the controls of the server at concrete inputs.
use auto_trade_stock_demo.Prelude.{
  ℕ, String, Bool, true, false, not, ◌&&◌, Option, none, some, List, [], ◌∷◌, ◌≡◌, ◌↔◌, refl, map,
  Dict, IfKnown, ◌<◌, contains, lookup, keys, is_some, arith,
}
use auto_trade_stock_demo.Numeric.{dec}
use auto_trade_stock_demo.Clock.{clock}
use auto_trade_stock_demo.Core.Settings.{default_settings}
use auto_trade_stock_demo.Toss.{Holdings, HoldingItem}
use auto_trade_stock_demo.Orders.Models.{OrderRequest, TradingMode, Side, OrderType, TimeInForce}
use auto_trade_stock_demo.Orders.Breaker.Persist.{dump_state}
use auto_trade_stock_demo.Orders.Guardrails.{GuardrailContext, guard_market_hours}
use auto_trade_stock_demo.Orders.Service.{OrderService}
use auto_trade_stock_demo.Orders.Reconcile.{ReconcileReport, is_ok, snapshot_from_holdings}
use auto_trade_stock_demo.Engine.Paper.{PaperPortfolio}
use auto_trade_stock_demo.Engine.Paper.Synthetic.{
  MatchesBook, item_symbols, to_synthetic_holdings, to_synthetic_holdings-MatchesBook,
}
use auto_trade_stock_demo.Engine.Pipeline.{run_tick}
use auto_trade_stock_demo.Db.Rows.{Database}
use auto_trade_stock_demo.Db.Positions.{save_positions_snapshot}
use auto_trade_stock_demo.Db.Ledger.{
  buy_notional_today, has_text, trade_date_kst, count_decisions_today, is_recorded,
}
use auto_trade_stock_demo.Db.State.{load_engine_state}
use auto_trade_stock_demo.Api.World.{World}
use auto_trade_stock_demo.Api.Reconciling.{reconcile_and_enforce}
use auto_trade_stock_demo.Api.Reconciling.Enforced.{
  Enforces, reconcile_and_enforce-Enforces, run_tick-reconcile_and_enforce,
}
use auto_trade_stock_demo.Api.Startup.{Startup, App, running, lifespan, refuses_key}
use auto_trade_stock_demo.Api.Startup.Modes.{RunsLive, lifespan-RunsLive}
use auto_trade_stock_demo.Api.Startup.Restored.{Survives, lifespan-Survives}
use auto_trade_stock_demo.Api.Controls.{set_kill_switch, set_kill_switch-load_engine_state}
use auto_trade_stock_demo.Api.Hours.{ticks_now, ticks_now-guard_market_hours}
use auto_trade_stock_demo.Api.Judging.{engine_of, uses_model}
use Prim.Native.Nat.{◌+◌}
use mathlib.Core.Logic.{◌⊎◌}
use auto_trade_stock_demo.Db.Ledger.Counts.{Recording, record_ticks, decided_on}
use auto_trade_stock_demo.Api.Judging.Capped.{engine_of-record_ticks}
use auto_trade_stock_demo.Engine.Pipeline.{TickResult}
use auto_trade_stock_demo.Engine.Judge.{Action}
use auto_trade_stock_demo.Clock.{astimezone, date}
use auto_trade_stock_demo.Examples.Fixed.{Fixed, fixed_numeric}
use auto_trade_stock_demo.Examples.Breakers.{unary_texts, unary-ReadsBack}
use auto_trade_stock_demo.Examples.Ticks.{floats, limits, verdict}
use auto_trade_stock_demo.Examples.Sessions.{service, inputs}
use auto_trade_stock_demo.Examples.Tables.{columns, first_database, morning, ticked_result}
use auto_trade_stock_demo.Examples.Servers.{settings, world}

abbrev share : HoldingItem Fixed
share = record {
  symbol = "005930";
  name = "삼성전자";
  currency = "KRW";
  quantity = dec 3;
  average_purchase_price = dec 100;
  rate = dec 0;
}

abbrev holding_one : Holdings Fixed
holding_one = record { items = share ∷ []; market_value_krw = dec 300; daily_rate = none }

-- The baseline holds no share.
abbrev live_world : World Fixed Fixed
live_world = record (world TradingMode.live) {
  db = record first_database {
    position_snapshots = record { id = 1; ts = 0; item_count = 0 } ∷ [];
  };
}

reconcile_and_enforce-Enforces_example :
    IfKnown
      (reconcile_and_enforce columns live_world true true holding_one morning (clock 1 0) 0)
      (λ q. Enforces columns live_world q.0 q.1)
reconcile_and_enforce-Enforces_example =
    reconcile_and_enforce-Enforces columns live_world true true holding_one morning (clock 1 0) 0

abbrev after : World Fixed Fixed × ReconcileReport Fixed
after =
    elim (reconcile_and_enforce columns live_world true true holding_one morning (clock 1 0) 0) [
      | none ↦ (live_world, record { baseline = true; discrepancies = [] })
      | some q ↦ q
    ]

run_tick-reconcile_and_enforce_example : (run_tick floats inputs after.0.service).0.placed ≡ []
unfolding reconcile_and_enforce auto_trade_stock_demo.Db.Positions.load_latest_positions
    auto_trade_stock_demo.Db.Ledger.submitted_qty_since is_ok
    auto_trade_stock_demo.Orders.Reconcile.reconcile auto_trade_stock_demo.Prelude.sorted_set keys
    auto_trade_stock_demo.Db.Positions.current_of snapshot_from_holdings
    auto_trade_stock_demo.Prelude.insert lookup
run_tick-reconcile_and_enforce_example =
    run_tick-reconcile_and_enforce floats columns live_world true true holding_one morning
      (clock 1 0) 0 after.0 after.1 inputs refl refl refl

abbrev old : OrderService Fixed
old = record (service TradingMode.live true) {
  circuit_breaker = record (service TradingMode.live true).circuit_breaker { drawdown_halt = true };
}

abbrev saved : Database Fixed Fixed
saved = record first_database {
  engine_state = some (record {
    kill_switch = true;
    breaker = dump_state unary_texts old.circuit_breaker;
    updated_at = 0;
  });
}

lifespan-Survives_example :
    (a : App Fixed) × (lifespan columns settings TradingMode.dry_run [] saved ≡ running a)
    × Survives unary_texts old a.service
unfolding load_engine_state refuses_key default_settings
    auto_trade_stock_demo.Api.Startup.refuses_sandbox
lifespan-Survives_example =
    lifespan-Survives columns settings TradingMode.dry_run [] saved old unary-ReadsBack refl refl
      refl refl refl

runs_live : RunsLive (lifespan columns settings TradingMode.live [] first_database)
unfolding lifespan load_engine_state refuses_key default_settings
    auto_trade_stock_demo.Api.Startup.refuses_sandbox
runs_live = (_, refl, refl)

lifespan-RunsLive_example :
    (TradingMode.live ≡ TradingMode.live)
    × (has_text settings.database_url ≡ true)
    × (settings.sandbox_mode ≡ false)
    × (refuses_key settings ≡ false)
lifespan-RunsLive_example =
    lifespan-RunsLive columns settings TradingMode.live [] first_database runs_live

set_kill_switch-load_engine_state_example :
    ((set_kill_switch columns true (world TradingMode.live) true 5).service
      ≡ service TradingMode.live true)
    × (load_engine_state (set_kill_switch columns true (world TradingMode.live) true 5).db
        ≡ some (true, dump_state unary_texts (service TradingMode.live true).circuit_breaker))
set_kill_switch-load_engine_state_example =
    set_kill_switch-load_engine_state columns (world TradingMode.live) true 5

abbrev context : GuardrailContext Fixed
context = record {
  now = morning;
  kill_switch = false;
  open_positions = 0;
  held_symbols = [];
  daily_buy_used_krw = dec 0;
  portfolio_value_krw = none;
  symbol_current_value_krw = dec 0;
  circuit_breaker_halt = false;
  circuit_breaker_reason = [];
}

abbrev a_sale : OrderRequest Fixed
a_sale = record {
  client_order_id = "id-9";
  symbol = "005930";
  side = Side.sell;
  order_type = OrderType.limit;
  quantity = some (dec 1);
  price = some (dec 100);
  order_amount = none;
  time_in_force = TimeInForce.day;
}

ticks_now-guard_market_hours_example :
    (ticks_now true morning limits ≡ true) ↔ (guard_market_hours a_sale context limits ≡ none)
ticks_now-guard_market_hours_example = ticks_now-guard_market_hours a_sale context limits

abbrev decided : TickResult Fixed Fixed
decided = record ticked_result { decisions = verdict Action.buy ∷ verdict Action.hold ∷ [] }

-- A tick of another day and two of this one, with two decisions each.
abbrev recordings : List (Recording Fixed Fixed)
recordings =
    record { result = decided; orders = []; started_at = record morning { instant = 200000000000 } }
    ∷ record { result = decided; orders = []; started_at = morning }
    ∷ record { result = decided; orders = []; started_at = morning }
    ∷ []

engine_of-record_ticks_example :
    (uses_model
        (engine_of true (record_ticks columns (λ f. "") first_database recordings) settings morning)
      ≡ true)
    ↔ ((has_text settings.anthropic_api_key ≡ true)
        × ((settings.daily_llm_decision_cap ≡ 0)
            ⊎ (count_decisions_today first_database (trade_date_kst morning)
                  + decided_on (trade_date_kst morning) recordings
                < settings.daily_llm_decision_cap)))
engine_of-record_ticks_example =
    engine_of-record_ticks columns (λ f. "") first_database recordings settings morning (tt, tt)

four_decided_test : decided_on (trade_date_kst morning) recordings ≡ 4
unfolding trade_date_kst astimezone date
four_decided_test = refl

abbrev paper_book : PaperPortfolio Fixed
paper_book = record {
  cash = dec 10;
  positions = ("005930", record { quantity = dec 3; avg_cost = dec 2; opened_at = none }) ∷ [];
  realized_cum = dec 0;
  trade_count = 1;
}

to_synthetic_holdings-MatchesBook_example :
    MatchesBook paper_book.positions (to_synthetic_holdings paper_book []).items
    × (contains (item_symbols (to_synthetic_holdings paper_book []).items) "005930"
        ≡ is_some (lookup "005930" paper_book.positions))
to_synthetic_holdings-MatchesBook_example = to_synthetic_holdings-MatchesBook paper_book [] "005930"
