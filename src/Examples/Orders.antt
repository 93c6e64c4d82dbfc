-- ===== src/Examples/Orders.antt =====
-- The theorems on the order layer at concrete inputs.
use auto_trade_stock_demo.Prelude.{
  String, true, false, none, some, List, [], ◌∷◌, ◌≡◌, ◌↔◌, inl, refl, ◌≤◌, arith, lookup, insert,
  contains,
}
use auto_trade_stock_demo.Numeric.{dec, lit}
use auto_trade_stock_demo.Clock.{DateTime, astimezone, date, time, weekday, kst, clock}
use auto_trade_stock_demo.Orders.Models.{
  OrderRequest, OrderResult, OrderStatus, OrderType, TimeInForce, TradingMode, buy, sell,
  estimated_notional,
}
use auto_trade_stock_demo.Orders.Guardrails
use auto_trade_stock_demo.Orders.Guardrails.{
  GuardrailConfig, GuardrailContext, run_guardrails, is_holiday,
}
use auto_trade_stock_demo.Orders.Guardrails.Admission.{Admitted, run_guardrails-nil_iff}
use auto_trade_stock_demo.Orders.Breaker.{CircuitBreaker, tripped}
use auto_trade_stock_demo.Orders.Service.{
  OrderService, Outcome, placed_as, submit, effective, duplicate_of,
}
use auto_trade_stock_demo.Orders.Service.Submit.{
  Accepted, Places, Settles, submit-Places, submit-Settles,
}
use auto_trade_stock_demo.Orders.Service.Runs.{
  Op, op_submit, op_assess, op_engage, op_release, run, count, PlacedOnce, run-PlacedOnce,
  run_dry_run, run_killed,
}
use auto_trade_stock_demo.Orders.Service.Sent.{SentWasPlaced, count_sent, run_sent}
use auto_trade_stock_demo.Examples.Fixed.{Fixed, fixed_numeric}

-- Monday, 10:00 in Seoul.
abbrev monday : DateTime
monday = record { instant = clock 1 0; offset = kst }

abbrev a_buy : OrderRequest Fixed
a_buy = record {
  client_order_id = "id-1";
  symbol = "005930";
  side = buy;
  order_type = OrderType.limit;
  quantity = some (dec 2);
  price = some (dec 40000);
  order_amount = none;
  time_in_force = TimeInForce.day;
}

abbrev a_sale : OrderRequest Fixed
a_sale = record a_buy { client_order_id = "id-2"; side = sell }

abbrev limits : GuardrailConfig Fixed
limits = record {
  per_order_max_krw = dec 100000;
  daily_buy_cap_krw = dec 500000;
  max_positions = 10;
  per_symbol_max_weight = lit 10 2;
  market_open = clock 9 0;
  market_close = clock 15 30;
  enforce_market_hours = true;
  holidays = [];
}

abbrev calm : GuardrailContext Fixed
calm = record {
  now = monday;
  kill_switch = false;
  open_positions = 3;
  held_symbols = "000660" ∷ [];
  daily_buy_used_krw = dec 100000;
  portfolio_value_krw = some (dec 2000000);
  symbol_current_value_krw = dec 0;
  circuit_breaker_halt = false;
  circuit_breaker_reason = [];
}

abbrev breaker : CircuitBreaker Fixed
breaker = record {
  config = record {
    daily_loss_limit = lit 5 2;
    max_drawdown_limit = lit 15 2;
    rearm_drawdown = lit 8 2;
  };
  high_water_mark = none;
  drawdown = dec 0;
  daily_halt_date = none;
  drawdown_halt = false;
  today = none;
  reason = [];
}

abbrev accept_all : List (OrderRequest Fixed) → OrderRequest Fixed → Outcome Fixed
accept_all before o = placed_as "toss-1"

abbrev live_service : OrderService Fixed
live_service = record {
  mode = TradingMode.live;
  config = limits;
  executor = some accept_all;
  kill_switch = false;
  circuit_breaker = breaker;
  seen = [];
  ledger = [];
  placed = [];
  audited = [];
}

abbrev dry_service : OrderService Fixed
dry_service = record live_service { mode = TradingMode.dry_run }

-- The same order twice: placed once, and the second answer is a duplicate.
abbrev twice : List (Op Fixed)
twice = op_submit a_buy calm ∷ op_submit a_buy calm ∷ op_submit a_sale calm ∷ []

run_guardrails-nil_iff_example :
    (run_guardrails a_buy calm limits ≡ []) ↔ Admitted a_buy calm limits
run_guardrails-nil_iff_example = run_guardrails-nil_iff a_buy calm limits

abbrev answered : OrderResult Fixed
answered = record {
  client_order_id = "id-1";
  status = OrderStatus.submitted;
  mode = TradingMode.live;
  request = a_buy;
  reason = none;
  toss_order_id = some "toss-1";
}

abbrev used_service : OrderService Fixed
used_service = record live_service { seen = ("id-1", answered) ∷ [] }

used_lookup : lookup "id-1" used_service.seen ≡ some answered
unfolding lookup
used_lookup = refl

submit-Places_example : Places live_service a_buy calm (submit live_service a_buy calm).0
submit-Places_example = submit-Places live_service a_buy calm

fresh_lookup : (id : String) (s : OrderService Fixed) → s.seen ≡ [] → lookup id s.seen ≡ none
unfolding lookup
fresh_lookup id s e = rw e refl

submit-Settles_example : Settles live_service a_buy (submit live_service a_buy calm)
submit-Settles_example =
    submit-Settles live_service a_buy calm (fresh_lookup "id-1" live_service refl)

a_buy-Accepted : Accepted (submit dry_service a_buy calm).1
unfolding run submit run_guardrails lookup insert effective tripped estimated_notional contains
    auto_trade_stock_demo.Orders.Service.Runs.apply Guardrails.guard_kill_switch
    Guardrails.guard_circuit_breaker Guardrails.guard_market_hours weekday date astimezone time
    Guardrails.guard_per_order_max Guardrails.guard_daily_buy_cap Guardrails.guard_max_positions
    Guardrails.guard_per_symbol_weight
a_buy-Accepted = inl refl

live_PlacedOnce : PlacedOnce live_service
unfolding PlacedOnce
live_PlacedOnce id = (omega arith, λ e. refl)

live_SentWasPlaced : SentWasPlaced live_service
unfolding SentWasPlaced auto_trade_stock_demo.Orders.Service.sent_orders
live_SentWasPlaced id = omega arith

run-PlacedOnce_example : PlacedOnce (run twice live_service)
run-PlacedOnce_example = run-PlacedOnce twice live_service live_PlacedOnce

run_sent_example :
    (count_sent "id-1" (run twice live_service).ledger
      ≤ count "id-1" (run twice live_service).placed)
    × (count_sent "id-1" (run twice live_service).ledger ≤ 1)
run_sent_example = run_sent twice live_service "id-1" live_PlacedOnce live_SentWasPlaced
