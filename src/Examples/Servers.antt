-- ===== src/Examples/Servers.antt =====
-- The theorems on a tick of the server at concrete inputs.
use auto_trade_stock_demo.Prelude.{
  ℕ, String, Bool, true, false, not, ◌&&◌, Option, none, some, List, [], ◌∷◌, ◌≡◌, ◌↔◌, refl, map,
  Dict, IfKnown, ◌<◌, contains, lookup, keys, is_some, arith,
}
use auto_trade_stock_demo.Numeric.{dec}
use auto_trade_stock_demo.Clock.{DateTime, kst, clock, date, astimezone}
use auto_trade_stock_demo.Core.Settings.{Settings, default_settings}
use auto_trade_stock_demo.Orders.Models.{
  OrderRequest, TradingMode, Side, OrderType, TimeInForce, estimated_notional,
}
use auto_trade_stock_demo.Orders.Guardrails.{GuardrailContext, guard_market_hours, default_config}
use auto_trade_stock_demo.Orders.Service.{OrderService}
use auto_trade_stock_demo.Orders.Reconcile.{ReconcileReport, is_ok, snapshot_from_holdings}
use auto_trade_stock_demo.Orders.Breaker.{tripped}
use auto_trade_stock_demo.Engine.Pipeline.{run_tick}
use auto_trade_stock_demo.Engine.Pipeline.Stages.{Toss}
use auto_trade_stock_demo.Db.Positions.{save_positions_snapshot}
use auto_trade_stock_demo.Db.Ledger.{
  buy_notional_today, has_text, trade_date_kst, count_decisions_today, is_recorded,
}
use auto_trade_stock_demo.Api.World.{World}
use auto_trade_stock_demo.Api.Reconciling.{reconcile_and_enforce}
use auto_trade_stock_demo.Api.Tick.{execute_tick, execute_tick_locked}
use auto_trade_stock_demo.Api.Tick.Env.{TickEnv}
use auto_trade_stock_demo.Api.Tick.Locked.{execute_tick_dry_run}
use auto_trade_stock_demo.Api.Tick.Days.{
  NewOrders, TodayWithinCap, execute_tick_locked-TodayWithinCap,
}
use auto_trade_stock_demo.Examples.Fixed.{Fixed, fixed_numeric}
use auto_trade_stock_demo.Examples.Breakers.{unary-ReadsBack}
use auto_trade_stock_demo.Examples.Ticks.{floats, screen, texts, a_stock}
use auto_trade_stock_demo.Examples.Sessions.{service, judge}
use auto_trade_stock_demo.Examples.Tables.{columns, first_database, morning}

abbrev pub settings : Settings Fixed Fixed
settings = record default_settings {
  database_url = some "sqlite";
  anthropic_api_key = some "key";
  paper_seed_krw = dec 0;
  regime_symbol = "";
}

abbrev closes : List Fixed
closes = dec 100 ∷ dec 98 ∷ dec 101 ∷ dec 99 ∷ dec 102 ∷ dec 100 ∷ dec 105 ∷ []

abbrev broker : Toss Fixed
broker = record {
  get_holdings = some (record { items = []; market_value_krw = dec 0; daily_rate = none });
  get_stocks = λ symbols. some (a_stock ∷ []);
  get_candles = λ s. some (map (λ c. record { close_price = c; volume = dec 1000 }) closes);
  get_stock_warnings = λ s. some false;
  get_buying_power = some (dec 2000000);
}

abbrev env : TickEnv Fixed Fixed
env = record {
  settings = settings;
  has_repo = true;
  toss = some broker;
  cached = broker;
  get_prices = λ ss. none;
  watch = "005930" ∷ [];
  model = judge;
  research = λ c. record { symbol = c.symbol; summary = ""; sources = [] };
  cached_research = λ c. record { symbol = c.symbol; summary = ""; sources = [] };
  texts = texts;
  screen_config = screen;
  columns = columns;
  show = λ f. "";
  new_id = λ k. "id-1";
  created_at = λ k. morning;
  now = morning;
  wall = clock 1 0;
  mono = 0;
}

abbrev pub world : TradingMode → World Fixed Fixed
world mode = record { db = first_database; service = service mode false; alerts = []; sent = [] }

execute_tick_dry_run_example :
    (execute_tick floats false none true env (world TradingMode.dry_run)).0.service.placed ≡ []
execute_tick_dry_run_example =
    execute_tick_dry_run floats false none true env (world TradingMode.dry_run) refl

within_first : TodayWithinCap floats env refl unary-ReadsBack (world TradingMode.live)
unfolding buy_notional_today
within_first = (dec 0, refl, refl)

-- The tick sends one buy.
one_order :
    NewOrders env
      (world TradingMode.live)
      (execute_tick_locked floats env (world TradingMode.live)).1
unfolding run_tick auto_trade_stock_demo.Engine.Judge.unique contains
    auto_trade_stock_demo.Engine.Pipeline.Stages.screen_all
    auto_trade_stock_demo.Engine.Pipeline.Stages.eligible_symbols
    auto_trade_stock_demo.Engine.Universe.partition_universe auto_trade_stock_demo.Prelude.lookup
    auto_trade_stock_demo.Engine.Judge.by_symbol auto_trade_stock_demo.Prelude.insert
    auto_trade_stock_demo.Engine.Universe.default_universe
    auto_trade_stock_demo.Engine.Judge.candidate_contexts keys
    auto_trade_stock_demo.Engine.Pipeline.Stages.split_warned
    auto_trade_stock_demo.Engine.Pipeline.Stages.reduce_buys
    auto_trade_stock_demo.Engine.Screener.screen_symbol
    auto_trade_stock_demo.Engine.Indicators.sum_from auto_trade_stock_demo.Engine.Indicators.sma
    auto_trade_stock_demo.Prelude.take_last auto_trade_stock_demo.Engine.Indicators.rsi
    auto_trade_stock_demo.Prelude.take auto_trade_stock_demo.Engine.Pipeline.Sizing.size_all
    auto_trade_stock_demo.Engine.Pipeline.Decisions.decisions_of
    auto_trade_stock_demo.Engine.Judge.decide_candidates
    auto_trade_stock_demo.Orders.Service.assess_circuit_breaker
    auto_trade_stock_demo.Prelude.sorted_set auto_trade_stock_demo.Orders.Breaker.tripped
    auto_trade_stock_demo.Engine.Allocator.allocate auto_trade_stock_demo.Orders.Service.effective
    auto_trade_stock_demo.Orders.Service.submit
    auto_trade_stock_demo.Orders.Guardrails.guard_kill_switch
    auto_trade_stock_demo.Orders.Guardrails.guard_circuit_breaker
    auto_trade_stock_demo.Orders.Guardrails.guard_market_hours
    auto_trade_stock_demo.Orders.Guardrails.guard_per_order_max
    auto_trade_stock_demo.Orders.Guardrails.guard_daily_buy_cap
    auto_trade_stock_demo.Orders.Guardrails.guard_max_positions
    auto_trade_stock_demo.Orders.Guardrails.guard_per_symbol_weight
    auto_trade_stock_demo.Orders.Guardrails.run_guardrails
    auto_trade_stock_demo.Orders.Context.context_from_holdings
    auto_trade_stock_demo.Orders.Models.estimated_notional
    auto_trade_stock_demo.Orders.Breaker.build_reason auto_trade_stock_demo.Orders.Breaker.assess
    auto_trade_stock_demo.Clock.astimezone auto_trade_stock_demo.Clock.date
    auto_trade_stock_demo.Clock.time auto_trade_stock_demo.Clock.weekday execute_tick_locked
    trade_date_kst is_recorded auto_trade_stock_demo.Api.Judging.engine_of
    auto_trade_stock_demo.Api.Judging.gate_of auto_trade_stock_demo.Api.Judging.regime_config_of
    auto_trade_stock_demo.Api.Tick.Preparing.prepare
    auto_trade_stock_demo.Api.Tick.Preparing.open_paper
    auto_trade_stock_demo.Api.Tick.Preparing.tick_inputs
    auto_trade_stock_demo.Api.Tick.Recording.stamped
    auto_trade_stock_demo.Api.Reconciling.reconcile_and_enforce
    auto_trade_stock_demo.Db.Positions.load_latest_positions
    auto_trade_stock_demo.Db.Positions.save_positions_snapshot
    auto_trade_stock_demo.Db.Ledger.buy_notional_today auto_trade_stock_demo.Engine.Costs.evaluate
    auto_trade_stock_demo.Engine.Costs.realized_daily_vol
    auto_trade_stock_demo.Engine.Costs.hurdle_rate auto_trade_stock_demo.Engine.Costs.default_gate
    auto_trade_stock_demo.Core.Settings.default_settings
    auto_trade_stock_demo.Orders.Reconcile.reconcile
    auto_trade_stock_demo.Engine.Costs.clamp_confidence
one_order = (refl, refl, λ b a. (dec 49980, refl, refl), tt)

execute_tick_locked-TodayWithinCap_example :
    TodayWithinCap floats env refl unary-ReadsBack
      (execute_tick_locked floats env (world TradingMode.live)).0
execute_tick_locked-TodayWithinCap_example =
    execute_tick_locked-TodayWithinCap floats env refl unary-ReadsBack (world TradingMode.live)
      one_order within_first
