-- ===== src/Orders/Guardrails/Liquidation.antt =====
-- The way out of a position: what can stop a sale.
use auto_trade_stock_demo.Prelude.{◌≡◌, arith}
use auto_trade_stock_demo.Numeric.{Numeric}
use auto_trade_stock_demo.Orders.Models.{OrderRequest, sell}
use auto_trade_stock_demo.Orders.Guardrails.{
  GuardrailConfig, GuardrailContext, run_guardrails, guard_kill_switch, guard_market_hours,
  guard_circuit_breaker, guard_per_order_max, guard_daily_buy_cap, guard_max_positions,
  guard_per_symbol_weight,
}

module _ {D : Type 0} ⦃n : Numeric D⦄ where
  -- A sale gets the same verdict in any two contexts of the same instant and kill switch: the
  -- breaker, the used budget, the portfolio and the positions never hold it up.
  pub sell_context_free :
      (o : OrderRequest D) (ctx ctx' : GuardrailContext D) (cfg : GuardrailConfig D)
      → o.side ≡ sell
      → ctx.kill_switch ≡ ctx'.kill_switch
      → ctx.now ≡ ctx'.now
      → run_guardrails o ctx cfg ≡ run_guardrails o ctx' cfg
  unfolding run_guardrails guard_kill_switch guard_market_hours guard_circuit_breaker
      guard_per_order_max guard_daily_buy_cap guard_max_positions guard_per_symbol_weight
  sell_context_free o ctx ctx' cfg s k t = ground arith
