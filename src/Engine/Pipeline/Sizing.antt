-- ===== src/Engine/Pipeline/Sizing.antt =====
-- Step 9 of `run_tick`: the entry gate, the size, the guardrail context and the submission of each
-- decision, with the sum of the buys of the day.
use auto_trade_stock_demo.Prelude.{
  ℕ, String, Bool, true, false, not, ◌&&◌, Option, none, some, List, [], ◌∷◌, ◌++◌, Dict, lookup,
  length, if◌then◌else◌,
}
use auto_trade_stock_demo.Numeric.{Numeric, ◌+◌, ◌*◌, dec, or_zero}
use auto_trade_stock_demo.Orders.Models.{OrderRequest, OrderResult, OrderStatus, estimated_notional}
use auto_trade_stock_demo.Orders.Guardrails.{GuardrailContext, is_buy}
use auto_trade_stock_demo.Orders.Service.{OrderService, submit}
use auto_trade_stock_demo.Engine.Costs.{Floats, EntryGate, evaluate}
use auto_trade_stock_demo.Engine.Screener.{ScreenIndicators}
use auto_trade_stock_demo.Engine.Judge.{Action, Decision, CandidateContext}
use auto_trade_stock_demo.Engine.Allocator.{allocate}

-- What the loop over the decisions changes.
pub record SizingState (D : Type 0) : Type 0 where
  pub service : OrderService D
  pub daily_used : D
  pub orders : List (OrderResult D)
  pub cost_gated : List String

-- What it only reads. `new_id` gives the identifier that a request makes for itself, by the number
-- of orders that the tick has made before.
pub record SizingInputs (F D : Type 0) : Type 0 where
  pub contexts : Dict (CandidateContext F D)
  pub base : GuardrailContext D
  pub entry_gate : Option (EntryGate D)
  pub multiplier : D
  pub new_id : ℕ → String

-- `res.status in (DRY_RUN, SUBMITTED)`
unfoldable pub is_accepted : OrderStatus → Bool
is_accepted OrderStatus.dry_run = true
is_accepted OrderStatus.submitted = true
is_accepted _ = false

abbrev pub is_buying : Action → Bool
is_buying Action.buy = true
is_buying _ = false

module _ {D : Type 0} ⦃n : Numeric D⦄ where
  -- The submission of one request, and the sum of the day after it.
  unfoldable pub book :
      SizingState D → OrderRequest D → OrderService D × OrderResult D → SizingState D
  unfolding is_accepted is_buy
  book st req (s, res) = record st {
    service = s;
    orders = st.orders ++ res ∷ [];
    daily_used =
        if is_buy req && is_accepted res.status
        then st.daily_used + or_zero (estimated_notional req)
        else st.daily_used;
  }

module _ {F D : Type 0} ⦃m : Numeric F⦄ ⦃n : Numeric D⦄ (x : Floats F D) where
  abbrev pub blocked_by : Option (EntryGate D) → Decision F D → CandidateContext F D → Bool
  blocked_by none d ctx = false
  blocked_by (some g) d ctx =
      is_buying d.action && not (evaluate x g d.confidence ctx.recent_closes).passed

  abbrev last_price : Option (ScreenIndicators F) → D
  last_price none = dec 0
  last_price (some ind) = x.decimal_of ind.last_close

  -- The guardrail context of one order.
  unfoldable pub order_context :
      SizingInputs F D → SizingState D → CandidateContext F D → GuardrailContext D
  order_context inp st ctx = record inp.base {
    daily_buy_used_krw = st.daily_used;
    symbol_current_value_krw = or_zero ctx.held_quantity * last_price ctx.indicators;
  }

  abbrev pub submit_sized :
      SizingInputs F D
      → SizingState D
      → CandidateContext F D
      → Option (OrderRequest D)
      → SizingState D
  submit_sized inp st ctx none = st
  submit_sized inp st ctx (some req) =
      book st req (submit st.service req (order_context inp st ctx))

  -- One decision.
  unfoldable pub size_one :
      SizingInputs F D → SizingState D → Decision F D → CandidateContext F D → SizingState D
  unfolding order_context book
  size_one inp st d ctx =
      if blocked_by inp.entry_gate d ctx
      then record st { cost_gated = st.cost_gated ++ d.symbol ∷ [] }
      else submit_sized inp st ctx
          (allocate x d ctx st.service.config none (inp.new_id (length st.orders)) inp.multiplier)

  abbrev size_found :
      SizingInputs F D
      → SizingState D
      → Decision F D
      → Option (CandidateContext F D)
      → Option (SizingState D)
  size_found inp st d none = none
  size_found inp st d (some ctx) = some (size_one inp st d ctx)

  abbrev resume :
      SizingState D
      → Option (SizingState D)
      → (SizingState D → SizingState D × Bool)
      → SizingState D × Bool
  resume st none rest = (st, false)
  resume st (some st') rest = rest st'

  -- The loop, and whether it came to its end: a decision on a symbol without a context raises.
  unfoldable pub size_all :
      SizingInputs F D → SizingState D → List (Decision F D) → SizingState D × Bool
  unfolding size_one
  size_all inp st [] = (st, true)
  size_all inp st (d ∷ ds) =
      resume st (size_found inp st d (lookup d.symbol inp.contexts)) (λ st'. size_all inp st' ds)
