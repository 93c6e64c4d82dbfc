-- ===== src/Engine/Allocator/Sales.antt =====
-- What a sell decision asks for.
use auto_trade_stock_demo.Prelude.{String, true, Option, some, ◌≡◌, arith}
use auto_trade_stock_demo.Numeric.{Numeric, ◌>◌, dec}
use auto_trade_stock_demo.Orders.Models.{Side}
use auto_trade_stock_demo.Orders.Guardrails.{GuardrailConfig}
use auto_trade_stock_demo.Engine.Costs.{Floats}
use auto_trade_stock_demo.Engine.Judge.{Action, Decision, CandidateContext}
use auto_trade_stock_demo.Engine.Allocator.{request, allocate, price_of}

module _ {F D : Type 0} ⦃n : Numeric D⦄ (x : Floats F D) where
  -- A decision to sell a holding with a positive quantity and a known price makes an order for
  -- all of it, whatever the confidence, the limits and the exposure multiplier are.
  pub allocate-sell :
      (d : Decision F D) (ctx : CandidateContext F D) (cfg : GuardrailConfig D)
      (cid : Option String) (new_id : String) (multiplier price q : D)
      → d.action ≡ Action.sell
      → price_of x ctx.indicators ≡ some price
      → ctx.already_held ≡ true
      → ctx.held_quantity ≡ some q
      → (q > dec 0) ≡ true
      → allocate x d ctx cfg cid new_id multiplier
        ≡ some (request Side.sell ctx.symbol q price cid new_id)
  unfolding allocate
  allocate-sell d ctx cfg cid new_id multiplier price q a p h e k = ground arith
