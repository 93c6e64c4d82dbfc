-- ===== src/Engine/Allocator.antt =====
-- Sizing (server/app/engine/allocator.py): from a decision to an order request. The identifier
-- that the request makes for itself, where none is given, is the argument `new_id`.
pub mod Sales
pub mod Amounts
pub mod Ceilings
use auto_trade_stock_demo.Prelude.{
  String, Bool, true, false, not, ◌||◌, Option, none, some, List, [], ◌∷◌, ◌++◌, if◌then◌else◌,
}
use auto_trade_stock_demo.Numeric.{
  Numeric, ◌+◌, ◌-◌, ◌*◌, ◌/◌, ◌<=◌, ◌>=◌, ◌>◌, dec, min, max, truthy, or_zero, floor,
}
use auto_trade_stock_demo.Orders.Models.{OrderRequest, OrderType, Side, TimeInForce}
use auto_trade_stock_demo.Orders.Guardrails.{GuardrailConfig}
use auto_trade_stock_demo.Engine.Costs.{Floats}
use auto_trade_stock_demo.Engine.Screener.{ScreenIndicators}
use auto_trade_stock_demo.Engine.Judge.{Action, Decision, CandidateContext}

abbrev id_or : String → Option String → String
id_or new_id none = new_id
id_or new_id (some i) = i

-- `_req(side, symbol, quantity, price, client_order_id)`
unfoldable pub request :
    {D : Type 0} → Side → String → D → D → Option String → String → OrderRequest D
request side symbol quantity price client_order_id new_id = record {
  client_order_id = id_or new_id client_order_id;
  symbol = symbol;
  side = side;
  order_type = OrderType.limit;
  quantity = some quantity;
  price = some price;
  order_amount = none;
  time_in_force = TimeInForce.day;
}

module _ {D : Type 0} ⦃n : Numeric D⦄ where
  abbrev pub above_zero : D → Option D
  above_zero p = if p > dec 0 then some p else none

  -- The exposure multiplier, kept within [0, 1].
  abbrev pub exposure : D → D
  exposure e = min (max e (dec 0)) (dec 1)

  abbrev pub cash_ceiling : Option D → List D
  cash_ceiling none = []
  cash_ceiling (some c) = c ∷ []

  -- The room that the weight limit leaves, not below zero.
  abbrev pub weight_ceiling : GuardrailConfig D → Option D → Option D → D → Option D → List D
  weight_ceiling cfg held cash price none = []
  weight_ceiling cfg held cash price (some portfolio) =
      let held_value = or_zero held * price in
      let equity = portfolio + or_zero cash in
      let room = cfg.per_symbol_max_weight * equity - held_value in
      (if room > dec 0 then room else dec 0) ∷ []

  -- `min(ceilings)`, of a list that starts with `c`.
  unfoldable pub minimum : D → List D → D
  minimum c [] = c
  minimum c (d ∷ ds) = minimum (min c d) ds

  unfoldable pub quantity_within : D → D → D → D → D
  quantity_within ceiling confidence price multiplier =
      if ceiling <= dec 0 then dec 0 else floor (ceiling * confidence * exposure multiplier / price)

module _ {F D : Type 0} ⦃n : Numeric D⦄ (x : Floats F D) where
  unfoldable pub price_of : Option (ScreenIndicators F) → Option D
  price_of none = none
  price_of (some ind) = above_zero (x.decimal_of ind.last_close)

  unfoldable pub ceiling_of : CandidateContext F D → GuardrailConfig D → D → D
  unfolding minimum
  ceiling_of ctx cfg price = minimum cfg.per_order_max_krw (
      cash_ceiling ctx.cash_buying_power_krw
      ++ weight_ceiling cfg ctx.held_quantity ctx.cash_buying_power_krw price
          ctx.portfolio_value_krw)

  -- `_buy_quantity`
  unfoldable pub buy_quantity : CandidateContext F D → Decision F D → GuardrailConfig D → D → D → D
  unfolding quantity_within ceiling_of
  buy_quantity ctx d cfg price multiplier =
      quantity_within (ceiling_of ctx cfg price) (x.decimal_of d.confidence) price multiplier

  abbrev sell_request :
      CandidateContext F D → D → Option String → String → Bool → Option D → Option (OrderRequest D)
  sell_request ctx price cid new_id held none = none
  sell_request ctx price cid new_id held (some q) =
      if not held || not (truthy q) || (q <= dec 0)
      then none
      else some (request Side.sell ctx.symbol q price cid new_id)

  abbrev buy_request :
      CandidateContext F D → D → D → Option String → String → Option (OrderRequest D)
  buy_request ctx price qty cid new_id =
      if not (qty >= dec 1) then none else some (request Side.buy ctx.symbol qty price cid new_id)

  abbrev allocate_at :
      Decision F D
      → CandidateContext F D
      → GuardrailConfig D
      → Option String
      → String
      → D
      → Option D
      → Action
      → Option (OrderRequest D)
  allocate_at d ctx cfg cid new_id multiplier price Action.hold = none
  allocate_at d ctx cfg cid new_id multiplier none Action.sell = none
  allocate_at d ctx cfg cid new_id multiplier none Action.buy = none
  allocate_at d ctx cfg cid new_id multiplier (some price) Action.sell =
      sell_request ctx price cid new_id ctx.already_held ctx.held_quantity
  allocate_at d ctx cfg cid new_id multiplier (some price) Action.buy =
      buy_request ctx price (buy_quantity ctx d cfg price multiplier) cid new_id

  unfoldable pub allocate :
      Decision F D
      → CandidateContext F D
      → GuardrailConfig D
      → Option String
      → String
      → D
      → Option (OrderRequest D)
  unfolding request buy_quantity price_of
  allocate d ctx cfg client_order_id new_id exposure_multiplier =
      allocate_at d ctx cfg client_order_id new_id exposure_multiplier (price_of ctx.indicators)
        d.action
