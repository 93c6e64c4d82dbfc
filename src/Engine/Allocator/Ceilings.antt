-- ===== src/Engine/Allocator/Ceilings.antt =====
-- The limits that the size of a buy keeps.
use auto_trade_stock_demo.Prelude.{
  String, true, Option, none, some, ◌++◌, ◌≡◌, refl, arith, Bool-cases, inl, inr, Option-cases,
  IfKnown,
}
use auto_trade_stock_demo.Numeric.{
  Numeric, IsOrdered, IsRounded, IsScaled, IsFloored, ◌*◌, ◌/◌, ◌<=◌, ◌>=◌, ◌>◌, dec, or_zero, ◌+◌,
  ◌-◌,
}
use auto_trade_stock_demo.Orders.Models.{OrderRequest, Side}
use auto_trade_stock_demo.Orders.Guardrails.{GuardrailConfig}
use auto_trade_stock_demo.Engine.Costs.{Floats}
use auto_trade_stock_demo.Engine.Screener.{ScreenIndicators}
use auto_trade_stock_demo.Engine.Judge.{Action, Decision, CandidateContext}
use auto_trade_stock_demo.Engine.Allocator.Amounts.{
  AllAtLeast, minimum_le_first, minimum-AllAtLeast, quantity_within_fits, quantity_within_positive,
  quantity_within_stopped, AllAtLeast-append,
}
use auto_trade_stock_demo.Engine.Allocator.{
  allocate, price_of, buy_quantity, ceiling_of, quantity_within, cash_ceiling, weight_ceiling,
  request,
}

module _ {F D : Type 0} ⦃n : Numeric D⦄ (x : Floats F D) where
  -- Every limit that a ceiling above zero is within.
  abbrev pub HasRoom : CandidateContext F D → GuardrailConfig D → D → (D → Type 0) → Type 0
  HasRoom ctx cfg price P =
      P cfg.per_order_max_krw
      × IfKnown ctx.cash_buying_power_krw P
      × IfKnown ctx.portfolio_value_krw (λ portfolio. P (
          cfg.per_symbol_max_weight * (portfolio + or_zero ctx.cash_buying_power_krw)
          - or_zero ctx.held_quantity * price))

  cash_limit :
      (o : IsOrdered D) (v : D) (cash : Option D)
      → AllAtLeast o v (cash_ceiling cash)
      → IfKnown cash (λ c. (v <= c) ≡ true)
  cash_limit o v none h = tt
  cash_limit o v (some c) (h, u) = h

  -- The room of a positive ceiling is above zero, so that it is the limit itself.
  weight_limit :
      (o : IsOrdered D) (v price : D) (cfg : GuardrailConfig D) (held cash portfolio : Option D)
      → (v > dec 0) ≡ true
      → AllAtLeast o v (weight_ceiling cfg held cash price portfolio)
      → IfKnown portfolio (λ total.
        (v <= cfg.per_symbol_max_weight * (total + or_zero cash) - or_zero held * price) ≡ true)
  weight_limit o v price cfg held cash none k h = tt
  weight_limit o v price cfg held cash (some total) k (h, u) =
      let room = cfg.per_symbol_max_weight * (total + or_zero cash) - or_zero held * price in
      elim (Bool-cases (room > dec 0)) [ inl e ↦ (rw e at h) | inr e ↦ ground arith ]

  ceiling_of-HasRoom :
      (o : IsOrdered D) (ctx : CandidateContext F D) (cfg : GuardrailConfig D) (price : D)
      → (ceiling_of x ctx cfg price > dec 0) ≡ true
      → HasRoom ctx cfg price (λ limit. (ceiling_of x ctx cfg price <= limit) ≡ true)
  unfolding ceiling_of
  ceiling_of-HasRoom o ctx cfg price h =
      let others =
        cash_ceiling ctx.cash_buying_power_krw
        ++ weight_ceiling cfg ctx.held_quantity ctx.cash_buying_power_krw price
            ctx.portfolio_value_krw in
      let (cash, weight) =
        AllAtLeast-append o _ (cash_ceiling ctx.cash_buying_power_krw) _
          (minimum-AllAtLeast o cfg.per_order_max_krw others) in
      (
        minimum_le_first o cfg.per_order_max_krw others,
        cash_limit o _ ctx.cash_buying_power_krw cash,
        weight_limit o _ price cfg _ _ ctx.portfolio_value_krw h weight,
      )

  IfKnown-map :
      (a : Option D) (P Q : D → Type 0) → ((d : D) → P d → Q d) → IfKnown a P → IfKnown a Q
  IfKnown-map none P Q f h = tt
  IfKnown-map (some d) P Q f h = f d h

  HasRoom-map :
      (ctx : CandidateContext F D) (cfg : GuardrailConfig D) (price : D) (P Q : D → Type 0)
      → ((limit : D) → P limit → Q limit)
      → HasRoom ctx cfg price P
      → HasRoom ctx cfg price Q
  HasRoom-map ctx cfg price P Q f (first, cash, weight) = (
    f _ first,
    IfKnown-map ctx.cash_buying_power_krw P Q f cash,
    IfKnown-map ctx.portfolio_value_krw _ _ (λ portfolio. f _) weight,
  )

  -- The limits on the shares of a buy at `price`, each as the quotient that a limit makes.
  abbrev pub KeepsLimits : CandidateContext F D → GuardrailConfig D → D → D → Type 0
  KeepsLimits ctx cfg price q = HasRoom ctx cfg price (λ limit. (q <= limit / price) ≡ true)

  price_of_positive :
      (ind : Option (ScreenIndicators F)) (price : D)
      → price_of x ind ≡ some price
      → (price > dec 0) ≡ true
  unfolding price_of
  price_of_positive ind price h = ground arith

  buy_quantity-KeepsLimits :
      (o : IsOrdered D) (r : IsRounded D) (c : IsScaled D) (f : IsFloored D) (d : Decision F D)
      (ctx : CandidateContext F D) (cfg : GuardrailConfig D) (e price : D)
      → (dec 0 <= x.decimal_of d.confidence) ≡ true
      → (x.decimal_of d.confidence <= dec 1) ≡ true
      → (price > dec 0) ≡ true
      → (buy_quantity x ctx d cfg price e >= dec 1) ≡ true
      → KeepsLimits ctx cfg price (buy_quantity x ctx d cfg price e)
  unfolding buy_quantity
  buy_quantity-KeepsLimits o r c f d ctx cfg e price p q k h =
      let ceiling = ceiling_of x ctx cfg price in
      let confidence = x.decimal_of d.confidence in
      HasRoom-map ctx cfg price (λ limit. (ceiling <= limit) ≡ true) _
        (λ limit l. quantity_within_fits o r c f ceiling limit confidence price e p q k h l)
        (ceiling_of-HasRoom o ctx cfg price
          (quantity_within_positive o c ceiling confidence price e h))

  allocate-buy :
      (d : Decision F D) (ctx : CandidateContext F D) (cfg : GuardrailConfig D)
      (cid : Option String) (new_id : String) (e price q : D) (req : OrderRequest D)
      → d.action ≡ Action.buy
      → price_of x ctx.indicators ≡ some price
      → buy_quantity x ctx d cfg price e ≡ q
      → allocate x d ctx cfg cid new_id e ≡ some req
      → (req ≡ request Side.buy ctx.symbol q price cid new_id) × ((q >= dec 1) ≡ true)
  unfolding allocate
  allocate-buy d ctx cfg cid new_id e price q req a h w k = ground arith

  -- In an arithmetic whose order is total and transitive and whose rounding keeps the order
  -- and the signs, a buy with a confidence within 0 and 1 that the allocator makes asks, at
  -- the last close, for at least one share, and for no more shares than the quotients, as the
  -- arithmetic rounds them, of the limit of one order, of the known cash, and of the room that
  -- the weight limit leaves in the known portfolio, by the price.
  pub allocate-KeepsLimits :
      (d : Decision F D) (ctx : CandidateContext F D) (cfg : GuardrailConfig D)
      (cid : Option String) (new_id : String) (e price : D) (req : OrderRequest D)
      → IsOrdered D
      → IsRounded D
      → IsScaled D
      → IsFloored D
      → d.action ≡ Action.buy
      → (dec 0 <= x.decimal_of d.confidence) ≡ true
      → (x.decimal_of d.confidence <= dec 1) ≡ true
      → price_of x ctx.indicators ≡ some price
      → allocate x d ctx cfg cid new_id e ≡ some req
      → (q : D) × (req ≡ request Side.buy ctx.symbol q price cid new_id)
        × ((q >= dec 1) ≡ true)
        × KeepsLimits ctx cfg price q
  allocate-KeepsLimits d ctx cfg cid new_id e price req o r c f a p q h k =
      let known = price_of_positive ctx.indicators price h in
      let (made, enough) =
        allocate-buy d ctx cfg cid new_id e price (buy_quantity x ctx d cfg price e) req a h refl
          k in
      (
        buy_quantity x ctx d cfg price e,
        made,
        enough,
        buy_quantity-KeepsLimits o r c f d ctx cfg e price p q known enough,
      )

  -- Where the exposure multiplier is zero or less, a decision to buy with a confidence that is
  -- not negative makes no order.
  pub allocate-no_exposure :
      (d : Decision F D) (ctx : CandidateContext F D) (cfg : GuardrailConfig D)
      (cid : Option String) (new_id : String) (e : D)
      → IsOrdered D
      → IsRounded D
      → IsScaled D
      → IsFloored D
      → d.action ≡ Action.buy
      → (dec 0 <= x.decimal_of d.confidence) ≡ true
      → (e <= dec 0) ≡ true
      → allocate x d ctx cfg cid new_id e ≡ none
  unfolding allocate buy_quantity
  allocate-no_exposure d ctx cfg cid new_id e o r c f a p h =
      elim (Option-cases (price_of x ctx.indicators)) [
        | inl u ↦ ground arith
        | inr (price, u) ↦
            let known = price_of_positive ctx.indicators price u in
            let stopped =
              quantity_within_stopped o r c f (ceiling_of x ctx cfg price)
                (x.decimal_of d.confidence) price e p known h in
            let one = c.dec_pos 1 (omega arith) in
            let small =
              o.le_trans (dec 1)
                (quantity_within (ceiling_of x ctx cfg price) (x.decimal_of d.confidence) price e)
                (dec 0) in
            ground arith
      ]
