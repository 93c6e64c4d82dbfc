-- ===== src/Examples/Tables.antt =====
-- The theorems on the database at concrete inputs.
use Prim.Native.Nat.{◌+◌ as nat_add}
use auto_trade_stock_demo.Prelude.{
  ℕ, true, false, Option, none, some, List, [], ◌∷◌, ◌≡◌, refl, arith, Dict, length, contains, keys,
  Part, if◌then◌else◌,
}
use auto_trade_stock_demo.Numeric.{dec}
use auto_trade_stock_demo.Clock.{DateTime, kst, clock, date, astimezone}
use auto_trade_stock_demo.Orders.Models.{
  OrderResult, OrderStatus, OrderRequest, estimated_notional, Side, OrderType, TimeInForce,
  TradingMode,
}
use auto_trade_stock_demo.Orders.Service.{OrderService}
use auto_trade_stock_demo.Orders.Reconcile.{PositionSnapshot}
use auto_trade_stock_demo.Engine.Pipeline.{TickResult, TickInputs, run_tick}
use auto_trade_stock_demo.Engine.Paper.{PaperPortfolio}
use auto_trade_stock_demo.Db.Rows.{Columns, KeepsValues, Database, blank, utc}
use auto_trade_stock_demo.Db.Ledger.{
  Stamped, record_tick, add_orders, buy_notional_today, trade_date_kst, is_recorded,
}
use auto_trade_stock_demo.Db.Ledger.Unique.{
  UniqueIds, Extends, AllRecorded, record_tick-UniqueIds, add_orders_twice,
}
use auto_trade_stock_demo.Db.Ledger.Budget.{AllNew}
use auto_trade_stock_demo.Db.Ledger.Days.{DayRun, DayWithinCap, DayRun-DayWithinCap}
use auto_trade_stock_demo.Db.Positions.{save_positions_snapshot, load_latest_positions, current_of}
use auto_trade_stock_demo.Db.Positions.Saved.{load_latest_positions-save_positions_snapshot}
use auto_trade_stock_demo.Db.PaperBook.{save_paper, load_paper}
use auto_trade_stock_demo.Db.PaperBook.Saved.{in_utc, load_paper-save_paper}
use auto_trade_stock_demo.Db.Stats.{upsert_symbol_stats}
use auto_trade_stock_demo.Db.Stats.Upsert.{view, updated, upsert_symbol_stats-updated}
use auto_trade_stock_demo.Examples.Fixed.{Fixed, fixed_numeric}
use auto_trade_stock_demo.Examples.Breakers.{unary_texts, unary-ReadsBack}
use auto_trade_stock_demo.Examples.Ticks.{floats, verdict}
use auto_trade_stock_demo.Engine.Judge.{Action}
use auto_trade_stock_demo.Examples.Sessions.{service, inputs}

-- The wall clock of a time is kept, and not its zone.
abbrev pub columns : Columns Fixed
columns = record { texts = unary_texts; timestamp = λ t. nat_add t.instant t.offset }

pub columns-KeepsValues : KeepsValues columns
columns-KeepsValues = record { reads_back = unary-ReadsBack; timestamp_utc = λ i. omega arith }

abbrev pub first_database : Database Fixed Fixed
first_database = blank

abbrev bought : OrderResult Fixed
bought = record {
  client_order_id = "id-1";
  status = OrderStatus.dry_run;
  mode = TradingMode.dry_run;
  request = record {
    client_order_id = "id-1";
    symbol = "005930";
    side = Side.buy;
    order_type = OrderType.limit;
    quantity = some (dec 3);
    price = some (dec 2);
    order_amount = none;
    time_in_force = TimeInForce.day;
  };
  reason = none;
  toss_order_id = none;
}

abbrev pub morning : DateTime
morning = record { instant = clock 1 0; offset = kst }

abbrev orders : List (Stamped Fixed)
orders = record { result = bought; created_at = morning } ∷ []

abbrev pub ticked_result : TickResult Fixed Fixed
ticked_result = record {
  mode = TradingMode.dry_run;
  kill_switch = false;
  universe_symbols = "005930" ∷ [];
  candidates = 1;
  decisions = [];
  orders = bought ∷ [];
  note = "";
  circuit_breaker = false;
  circuit_breaker_reason = [];
  cost_gated = [];
  regime = none;
  forced_exits = [];
  adv20 = [];
  warned = [];
}

record_tick-UniqueIds_example :
    UniqueIds (record_tick columns (λ f. "") first_database ticked_result orders morning).0.orders
    × Extends []
        (record_tick columns (λ f. "") first_database ticked_result orders morning).0.orders
    × AllRecorded
        (record_tick columns (λ f. "") first_database ticked_result orders morning).0.orders
        orders
record_tick-UniqueIds_example =
    record_tick-UniqueIds columns (λ f. "") first_database ticked_result orders morning tt

add_orders_twice_example :
    add_orders columns (add_orders columns [] (some 1) orders) (some 2) orders
    ≡ add_orders columns [] (some 1) orders
add_orders_twice_example = add_orders_twice columns [] (some 1) (some 2) orders

abbrev items : List (PositionSnapshot Fixed)
items = record { symbol = "005930"; quantity = dec 3; avg_price = none; currency = some "KRW" } ∷ []

load_latest_positions-save_positions_snapshot_example :
    load_latest_positions columns (save_positions_snapshot columns first_database morning items).0
    ≡ some (some (utc (clock 1 0), current_of items []))
load_latest_positions-save_positions_snapshot_example =
    load_latest_positions-save_positions_snapshot columns columns-KeepsValues first_database morning
      items tt

abbrev book : PaperPortfolio Fixed
book = record {
  cash = dec 10;
  positions =
      ("005930", record { quantity = dec 3; avg_cost = dec 2; opened_at = some morning }) ∷ [];
  realized_cum = dec 0;
  trade_count = 1;
}

load_paper-save_paper_example :
    load_paper columns (save_paper columns first_database book none 7)
    ≡ some (some (record book { positions = in_utc book.positions }))
unfolding contains keys
load_paper-save_paper_example =
    load_paper-save_paper columns columns-KeepsValues first_database book none 7 (refl, tt)

upsert_symbol_stats-updated_example :
    view
      (upsert_symbol_stats first_database
        (("005930", dec 5) ∷ ("000660", dec 6) ∷ [])
        9).symbol_stats
    ≡ updated [] (("005930", dec 5) ∷ ("000660", dec 6) ∷ []) 9
unfolding view
upsert_symbol_stats-updated_example =
    upsert_symbol_stats-updated first_database (("005930", dec 5) ∷ ("000660", dec 6) ∷ []) 9

-- The tick buys 476 shares at 105.
abbrev tick_inputs : TickInputs Fixed Fixed
tick_inputs = record inputs { daily_buy_used_krw = dec 0 }

abbrev tick_order : OrderResult Fixed
tick_order = record bought {
  request = record bought.request { quantity = some (dec 476); price = some (dec 105) };
  reason = some (Part.lit "DRY_RUN: 미전송(의도된 주문 기록)" ∷ []);
}

abbrev tick_orders : List (Stamped Fixed)
tick_orders = record { result = tick_order; created_at = morning } ∷ []

abbrev tick_result : TickResult Fixed Fixed
tick_result = record ticked_result {
  decisions = record (verdict Action.buy) { decision_price = some (dec 105) } ∷ [];
  orders = tick_order ∷ [];
  adv20 = ("005930", dec 101000) ∷ [];
}

-- The tick computes to this result.
ran : (run_tick floats tick_inputs (service TradingMode.dry_run false)).1 ≡ some tick_result
unfolding run_tick auto_trade_stock_demo.Engine.Judge.unique contains
    auto_trade_stock_demo.Engine.Pipeline.Stages.screen_all
    auto_trade_stock_demo.Engine.Pipeline.Stages.eligible_symbols
    auto_trade_stock_demo.Engine.Universe.partition_universe auto_trade_stock_demo.Prelude.lookup
    auto_trade_stock_demo.Engine.Judge.by_symbol auto_trade_stock_demo.Prelude.insert
    auto_trade_stock_demo.Engine.Universe.default_universe
    auto_trade_stock_demo.Engine.Judge.candidate_contexts keys
    auto_trade_stock_demo.Engine.Pipeline.Stages.split_warned
    auto_trade_stock_demo.Engine.Pipeline.Stages.reduce_buys
    auto_trade_stock_demo.Engine.Screener.screen_symbol
    auto_trade_stock_demo.Engine.Indicators.sum_from auto_trade_stock_demo.Engine.Indicators.sma
    auto_trade_stock_demo.Prelude.take_last auto_trade_stock_demo.Engine.Indicators.rsi
    auto_trade_stock_demo.Prelude.take auto_trade_stock_demo.Engine.Pipeline.Sizing.size_all
    auto_trade_stock_demo.Engine.Pipeline.Decisions.decisions_of
    auto_trade_stock_demo.Engine.Judge.decide_candidates
    auto_trade_stock_demo.Orders.Service.assess_circuit_breaker
    auto_trade_stock_demo.Prelude.sorted_set auto_trade_stock_demo.Orders.Breaker.tripped
    auto_trade_stock_demo.Engine.Allocator.allocate auto_trade_stock_demo.Orders.Service.effective
    auto_trade_stock_demo.Orders.Service.submit
    auto_trade_stock_demo.Orders.Guardrails.guard_kill_switch
    auto_trade_stock_demo.Orders.Guardrails.guard_circuit_breaker
    auto_trade_stock_demo.Orders.Guardrails.guard_market_hours
    auto_trade_stock_demo.Orders.Guardrails.guard_per_order_max
    auto_trade_stock_demo.Orders.Guardrails.guard_daily_buy_cap
    auto_trade_stock_demo.Orders.Guardrails.guard_max_positions
    auto_trade_stock_demo.Orders.Guardrails.guard_per_symbol_weight
    auto_trade_stock_demo.Orders.Guardrails.run_guardrails
    auto_trade_stock_demo.Orders.Context.context_from_holdings
    auto_trade_stock_demo.Orders.Models.estimated_notional
    auto_trade_stock_demo.Orders.Breaker.build_reason auto_trade_stock_demo.Orders.Breaker.assess
    auto_trade_stock_demo.Clock.astimezone auto_trade_stock_demo.Clock.date
    auto_trade_stock_demo.Clock.time auto_trade_stock_demo.Clock.weekday
ran = refl

new_orders : AllNew columns [] (some 1) 1 tick_orders
unfolding trade_date_kst date astimezone is_recorded estimated_notional
new_orders = (refl, refl, λ b a. (dec 49980, refl, refl), tt)

one_tick :
    DayRun floats columns
      (λ f. "")
      1
      first_database
      (service TradingMode.dry_run false)
      (record_tick columns (λ f. "") first_database tick_result tick_orders tick_inputs.now).0
      (run_tick floats tick_inputs (service TradingMode.dry_run false)).0
unfolding buy_notional_today
one_tick = DayRun.tick DayRun.start tick_inputs tick_result tick_orders refl ran refl new_orders

blank_day :
    DayWithinCap floats columns (λ f. "") 1 first_database (service TradingMode.dry_run false)
unfolding buy_notional_today
blank_day = (dec 0, refl, refl)

DayRun-DayWithinCap_example :
    DayWithinCap floats columns
      (λ f. "")
      1
      (record_tick columns (λ f. "") first_database tick_result tick_orders tick_inputs.now).0
      (run_tick floats tick_inputs (service TradingMode.dry_run false)).0
DayRun-DayWithinCap_example =
    DayRun-DayWithinCap floats columns (λ f. "") 1 unary-ReadsBack blank_day one_tick
