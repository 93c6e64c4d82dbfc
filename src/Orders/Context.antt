-- ===== src/Orders/Context.antt =====
-- The guardrail context of the holdings (server/app/orders/context.py).
use auto_trade_stock_demo.Prelude.{Bool, false, some, [], map, length}
use auto_trade_stock_demo.Numeric.{Numeric}
use auto_trade_stock_demo.Clock.{DateTime}
use auto_trade_stock_demo.Toss.{HoldingItem, Holdings}
use auto_trade_stock_demo.Orders.Guardrails.{GuardrailContext}

unfoldable pub context_from_holdings :
    {D : Type 0} ⦃n : Numeric D⦄ → Holdings D → DateTime → Bool → D → D → GuardrailContext D
context_from_holdings {D = D} holdings now kill_switch daily_buy_used_krw symbol_current_value_krw =
    record {
      now = now;
      kill_switch = kill_switch;
      open_positions = length holdings.items;
      held_symbols = map (λ (i : HoldingItem D). i.symbol) holdings.items;
      daily_buy_used_krw = daily_buy_used_krw;
      portfolio_value_krw = some holdings.market_value_krw;
      symbol_current_value_krw = symbol_current_value_krw;
      circuit_breaker_halt = false;
      circuit_breaker_reason = [];
    }
