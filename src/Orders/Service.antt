-- ===== src/Orders/Service.antt =====
-- The order service (server/app/orders/service.py): mode gate, guardrails, idempotency and audit.
-- An executor is a function of the orders that were placed before and of the new one, so it may
-- keep state of its own; `none` where the service has none. `placed` and `audited` record the
-- calls of the executor and of the audit sink, which is taken to return.
pub mod Submit
pub mod Runs
pub mod Sent
use auto_trade_stock_demo.Prelude.{
  String, Bool, true, false, ◌||◌, Option, none, some, List, [], ◌∷◌, ◌++◌, Message, Part, text_or,
  Dict, lookup, insert, if◌then◌else◌,
}
use auto_trade_stock_demo.Numeric.{Numeric}
use auto_trade_stock_demo.Clock.{DateTime}
use auto_trade_stock_demo.Orders.Models.{
  OrderRequest, OrderResult, OrderStatus, TradingMode, is_submitted,
}
use auto_trade_stock_demo.Orders.Guardrails.{
  GuardrailConfig, GuardrailContext, Violation, ViolationCode, kill_switch_code,
  circuit_breaker_code, market_closed, unbounded_cost, per_order_max, daily_buy_cap,
  max_positions_code, per_symbol_weight, run_guardrails,
}
use auto_trade_stock_demo.Orders.Breaker.{CircuitBreaker, tripped, assess}

-- What a call of the executor ends in: the broker's order id, or an exception.
pub data Outcome (D : Type 0) : Type 0 where
  placed_as : String → Outcome D
  raised : Message D → Outcome D

abbrev pub Executor : Type 0 → Type 0
Executor D = List (OrderRequest D) → OrderRequest D → Outcome D

pub record OrderService (D : Type 0) : Type 0 where
  pub mode : TradingMode
  pub config : GuardrailConfig D
  pub executor : Option (Executor D)
  pub kill_switch : Bool
  pub circuit_breaker : CircuitBreaker D
  pub seen : Dict (OrderResult D)
  pub ledger : List (OrderResult D)
  pub placed : List (OrderRequest D)
  pub audited : List (OrderResult D)

unfoldable pub engage_kill_switch : {D : Type 0} → OrderService D → OrderService D
engage_kill_switch s = record s { kill_switch = true }

unfoldable pub release_kill_switch : {D : Type 0} → OrderService D → OrderService D
release_kill_switch s = record s { kill_switch = false }

abbrev code_name : ViolationCode → String
code_name kill_switch_code = "KILL_SWITCH"
code_name circuit_breaker_code = "CIRCUIT_BREAKER"
code_name market_closed = "MARKET_CLOSED"
code_name unbounded_cost = "UNBOUNDED_COST"
code_name per_order_max = "PER_ORDER_MAX"
code_name daily_buy_cap = "DAILY_BUY_CAP"
code_name max_positions_code = "MAX_POSITIONS"
code_name per_symbol_weight = "PER_SYMBOL_WEIGHT"

abbrev separated : {D : Type 0} → Message D → Message D
separated [] = []
separated (p ∷ ps) = Part.lit "; " ∷ p ∷ ps

-- `"; ".join(f"[{v.code}] {v.reason}" for v in violations)`
unfoldable pub describe : {D : Type 0} → List (Violation D) → Message D
describe [] = []
describe (v ∷ vs) =
    Part.lit "["
    ∷ Part.lit (code_name v.code)
    ∷ Part.lit "] "
    ∷ (v.reason ++ separated (describe vs))

module _ {D : Type 0} where
  unfoldable pub emit : OrderService D → OrderResult D → OrderService D
  emit s r = record s { audited = s.audited ++ r ∷ [] }

  unfoldable pub finalize : OrderService D → OrderResult D → OrderService D × OrderResult D
  unfolding emit
  finalize s r = (
    emit (record s { seen = insert r.client_order_id r s.seen; ledger = s.ledger ++ r ∷ [] }) r,
    r,
  )

  -- `_result`
  abbrev pub result_of :
      OrderService D
      → OrderRequest D
      → OrderStatus
      → Option (Message D)
      → Option String
      → OrderResult D
  result_of s o st reason toss_id = record {
    client_order_id = o.client_order_id;
    status = st;
    mode = s.mode;
    request = o;
    reason = reason;
    toss_order_id = toss_id;
  }

  -- The context with the state that the service owns.
  unfoldable pub effective : OrderService D → GuardrailContext D → GuardrailContext D
  effective s ctx = record ctx {
    kill_switch = ctx.kill_switch || s.kill_switch;
    circuit_breaker_halt = ctx.circuit_breaker_halt || tripped s.circuit_breaker;
    circuit_breaker_reason = text_or ctx.circuit_breaker_reason s.circuit_breaker.reason;
  }

  abbrev outcome_result : OrderService D → OrderRequest D → Outcome D → OrderResult D
  outcome_result s o (placed_as toss_id) = result_of s o OrderStatus.submitted none (some toss_id)
  outcome_result s o (raised e) =
      result_of s o OrderStatus.failed (some (Part.lit "전송 오류: " ∷ e)) none

  -- The part of `submit` that is left to LIVE mode.
  unfoldable pub send :
      OrderService D → Option (Executor D) → OrderRequest D → OrderService D × OrderResult D
  unfolding finalize
  send s none o =
      finalize s
        (result_of s o OrderStatus.failed (some (Part.lit "LIVE executor 미설정 — 전송 거부" ∷ [])) none)
  send s (some place) o =
      finalize (record s { placed = s.placed ++ o ∷ [] }) (outcome_result s o (place s.placed o))

  -- The mode gate of `submit`.
  unfoldable pub gate :
      OrderService D → TradingMode → OrderRequest D → OrderService D × OrderResult D
  unfolding finalize send
  gate s TradingMode.dry_run o =
      finalize s
        (result_of s o OrderStatus.dry_run (some (Part.lit "DRY_RUN: 미전송(의도된 주문 기록)" ∷ [])) none)
  gate s TradingMode.live o = send s s.executor o

  unfoldable pub decide :
      OrderService D → OrderRequest D → List (Violation D) → OrderService D × OrderResult D
  unfolding finalize gate
  decide s o [] = gate s s.mode o
  decide s o (v ∷ vs) =
      finalize s (result_of s o OrderStatus.rejected (some (describe (v ∷ vs))) none)

  -- The answer to an id that was seen before.
  abbrev pub duplicate_of : OrderResult D → OrderResult D
  duplicate_of prior = record prior { status = OrderStatus.duplicate }

module _ {D : Type 0} ⦃n : Numeric D⦄ where
  abbrev admit :
      OrderService D
      → OrderRequest D
      → GuardrailContext D
      → Option (OrderResult D)
      → OrderService D × OrderResult D
  admit s o ctx (some prior) = (emit s (duplicate_of prior), duplicate_of prior)
  admit s o ctx none = decide s o (run_guardrails o (effective s ctx) s.config)

  unfoldable pub submit :
      OrderService D → OrderRequest D → GuardrailContext D → OrderService D × OrderResult D
  unfolding emit decide
  submit s o ctx = admit s o ctx (lookup o.client_order_id s.seen)

  unfoldable pub assess_circuit_breaker :
      OrderService D → Option D → Option D → DateTime → OrderService D × Bool
  assess_circuit_breaker s equity rate now =
      let (b, t) = assess s.circuit_breaker equity rate now in (record s { circuit_breaker = b }, t)

abbrev is_dry_run : OrderStatus → Bool
is_dry_run OrderStatus.dry_run = true
is_dry_run _ = false

unfoldable pub intended_orders : {D : Type 0} → List (OrderResult D) → List (OrderResult D)
intended_orders [] = []
intended_orders (r ∷ rs) =
    let rest = intended_orders rs in if is_dry_run r.status then r ∷ rest else rest

unfoldable pub sent_orders : {D : Type 0} → List (OrderResult D) → List (OrderResult D)
unfolding is_submitted
sent_orders [] = []
sent_orders (r ∷ rs) = let rest = sent_orders rs in if is_submitted r.status then r ∷ rest else rest
