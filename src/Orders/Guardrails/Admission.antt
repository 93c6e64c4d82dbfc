-- ===== src/Orders/Guardrails/Admission.antt =====
-- What it means that an order passes: the specification of `run_guardrails`, written without its
-- code.
use Prim.Native.Nat.{◌+◌ as nat_add}
use auto_trade_stock_demo.Prelude.{
  true, false, Option, none, some, [], ◌≡◌, ◌↔◌, ◌≤◌, ◌<◌, ◌⊎◌, contains, arith, inl, inr,
  Option-cases,
}
use auto_trade_stock_demo.Numeric.{Numeric, ◌+◌, ◌/◌, ◌<=◌, dec, or_zero}
use auto_trade_stock_demo.Clock.{astimezone, date, time, weekday, kst}
use auto_trade_stock_demo.Orders.Models.{OrderRequest, buy, sell, estimated_notional}
use auto_trade_stock_demo.Orders.Guardrails.{
  GuardrailConfig, GuardrailContext, is_holiday, run_guardrails, guard_kill_switch,
  guard_circuit_breaker, guard_market_hours, guard_per_order_max, guard_daily_buy_cap,
  guard_max_positions, guard_per_symbol_weight,
}

module _ {D : Type 0} ⦃n : Numeric D⦄ where
  -- The market is open: a weekday in KST, no holiday, between the opening and the closing time.
  abbrev pub MarketOpen : GuardrailContext D → GuardrailConfig D → Type 0
  MarketOpen ctx cfg =
      let t = astimezone ctx.now kst in
      (weekday (date t) < 5)
      × (is_holiday (date t) cfg.holidays ≡ false)
      × (cfg.market_open ≤ time t)
      × (time t ≤ cfg.market_close)

  -- The weight of the symbol after the order is within its limit.
  abbrev pub WeightOk : GuardrailContext D → GuardrailConfig D → D → Option D → Type 0
  WeightOk ctx cfg notional none = Unit
  WeightOk ctx cfg notional (some portfolio) =
      ((portfolio + notional <= dec 0) ≡ true)
      ⊎ (((ctx.symbol_current_value_krw + notional) / (portfolio + notional)
            <= cfg.per_symbol_max_weight)
          ≡ true)

  -- A buy of a known cost within every limit, while the breaker is not tripped.
  pub record BuyAdmitted (o : OrderRequest D) (ctx : GuardrailContext D) (cfg : GuardrailConfig D)
      : Type 0 where
    pub not_halted : ctx.circuit_breaker_halt ≡ false
    pub notional : D
    pub known : estimated_notional o ≡ some notional
    pub within_order : (notional <= cfg.per_order_max_krw) ≡ true
    pub within_day :
        (ctx.daily_buy_used_krw + or_zero (some notional) <= cfg.daily_buy_cap_krw) ≡ true
    pub within_positions :
        (contains ctx.held_symbols o.symbol ≡ true)
        ⊎ (nat_add ctx.open_positions 1 ≤ cfg.max_positions)
    pub within_weight : WeightOk ctx cfg (or_zero (some notional)) ctx.portfolio_value_krw

  pub record Admitted (o : OrderRequest D) (ctx : GuardrailContext D) (cfg : GuardrailConfig D)
      : Type 0 where
    pub no_kill : ctx.kill_switch ≡ false
    pub open_market : (cfg.enforce_market_hours ≡ false) ⊎ MarketOpen ctx cfg
    pub buy_ok : o.side ≡ buy → BuyAdmitted o ctx cfg

  kill_none :
      (o : OrderRequest D) (ctx : GuardrailContext D) (cfg : GuardrailConfig D)
      → (guard_kill_switch o ctx cfg ≡ none) ↔ (ctx.kill_switch ≡ false)
  unfolding guard_kill_switch
  kill_none o ctx cfg = ground arith

  breaker_none :
      (o : OrderRequest D) (ctx : GuardrailContext D) (cfg : GuardrailConfig D)
      → (guard_circuit_breaker o ctx cfg ≡ none)
        ↔ ((o.side ≡ buy) → ctx.circuit_breaker_halt ≡ false)
  unfolding guard_circuit_breaker
  breaker_none o ctx cfg = ground arith

  hours_none :
      (o : OrderRequest D) (ctx : GuardrailContext D) (cfg : GuardrailConfig D)
      → (guard_market_hours o ctx cfg ≡ none)
        ↔ ((cfg.enforce_market_hours ≡ false) ⊎ MarketOpen ctx cfg)
  unfolding guard_market_hours
  hours_none o ctx cfg = ground arith

  order_none :
      (o : OrderRequest D) (ctx : GuardrailContext D) (cfg : GuardrailConfig D)
      → o.side ≡ buy
      → guard_per_order_max o ctx cfg ≡ none
      → (m : D) × (estimated_notional o ≡ some m) × ((m <= cfg.per_order_max_krw) ≡ true)
  unfolding guard_per_order_max
  order_none o ctx cfg b h = elim (Option-cases (estimated_notional o)) [
    | inl e ↦ ground arith
    | inr (m, e) ↦ (m, e, ground arith)
  ]

  -- The rest of the limits on a buy of cost `m`.
  limits_none :
      (o : OrderRequest D) (ctx : GuardrailContext D) (cfg : GuardrailConfig D) (m : D)
      → o.side ≡ buy
      → estimated_notional o ≡ some m
      → ((guard_daily_buy_cap o ctx cfg ≡ none)
          ↔ ((ctx.daily_buy_used_krw + or_zero (some m) <= cfg.daily_buy_cap_krw) ≡ true))
        × ((guard_max_positions o ctx cfg ≡ none) ↔ (
            (contains ctx.held_symbols o.symbol ≡ true)
            ⊎ (nat_add ctx.open_positions 1 ≤ cfg.max_positions)))
  unfolding guard_daily_buy_cap guard_max_positions
  limits_none o ctx cfg m b e = (ground arith, ground arith)

  weight_none :
      (o : OrderRequest D) (ctx : GuardrailContext D) (cfg : GuardrailConfig D) (m : D)
      → o.side ≡ buy
      → estimated_notional o ≡ some m
      → (guard_per_symbol_weight o ctx cfg ≡ none)
        ↔ WeightOk ctx cfg (or_zero (some m)) ctx.portfolio_value_krw
  unfolding guard_per_symbol_weight
  weight_none o ctx cfg m b e = elim (Option-cases ctx.portfolio_value_krw) [
    | inl p ↦ ground arith
    | inr (v, p) ↦ ground arith
  ]

  sell_none :
      (o : OrderRequest D) (ctx : GuardrailContext D) (cfg : GuardrailConfig D)
      → o.side ≡ sell
      → (guard_circuit_breaker o ctx cfg ≡ none)
        × (guard_per_order_max o ctx cfg ≡ none)
        × (guard_daily_buy_cap o ctx cfg ≡ none)
        × (guard_max_positions o ctx cfg ≡ none)
        × (guard_per_symbol_weight o ctx cfg ≡ none)
  unfolding guard_circuit_breaker guard_per_order_max guard_daily_buy_cap guard_max_positions
      guard_per_symbol_weight
  sell_none o ctx cfg s = (ground arith, ground arith, ground arith, ground arith, ground arith)

  buy_limits :
      (o : OrderRequest D) (ctx : GuardrailContext D) (cfg : GuardrailConfig D)
      → BuyAdmitted o ctx cfg
      → o.side ≡ buy
      → guard_per_order_max o ctx cfg ≡ none
  unfolding guard_per_order_max
  buy_limits o ctx cfg a b = ground arith

  -- The guards in the order in which `run_guardrails` asks them.
  pub AllPass : OrderRequest D → GuardrailContext D → GuardrailConfig D → Type 0
  AllPass o ctx cfg =
      (guard_kill_switch o ctx cfg ≡ none)
      × (guard_circuit_breaker o ctx cfg ≡ none)
      × (guard_market_hours o ctx cfg ≡ none)
      × (guard_per_order_max o ctx cfg ≡ none)
      × (guard_daily_buy_cap o ctx cfg ≡ none)
      × (guard_max_positions o ctx cfg ≡ none)
      × (guard_per_symbol_weight o ctx cfg ≡ none)

  run-nil_iff :
      (o : OrderRequest D) (ctx : GuardrailContext D) (cfg : GuardrailConfig D)
      → (run_guardrails o ctx cfg ≡ []) ↔ AllPass o ctx cfg
  unfolding run_guardrails AllPass
  run-nil_iff o ctx cfg = ground arith

  pass_admits_buy :
      (o : OrderRequest D) (ctx : GuardrailContext D) (cfg : GuardrailConfig D)
      → AllPass o ctx cfg
      → o.side ≡ buy
      → BuyAdmitted o ctx cfg
  unfolding AllPass
  pass_admits_buy o ctx cfg p b =
      let (m, e, w) = order_none o ctx cfg b p.3 in
      let (day, pos) = limits_none o ctx cfg m b e in
      record {
        not_halted = (breaker_none o ctx cfg).0 p.1 b;
        notional = m;
        known = e;
        within_order = w;
        within_day = day.0 p.4;
        within_positions = pos.0 p.5;
        within_weight = (weight_none o ctx cfg m b e).0 p.6;
      }

  side_cases : (o : OrderRequest D) → (o.side ≡ buy) ⊎ (o.side ≡ sell)
  side_cases o = ground arith

  admits_pass_buy :
      (o : OrderRequest D) (ctx : GuardrailContext D) (cfg : GuardrailConfig D)
      → Admitted o ctx cfg
      → o.side ≡ buy
      → AllPass o ctx cfg
  unfolding AllPass
  admits_pass_buy o ctx cfg a b =
      let ok = a.buy_ok b in
      let (day, pos) = limits_none o ctx cfg ok.notional b ok.known in
      (
        (kill_none o ctx cfg).1 a.no_kill,
        (breaker_none o ctx cfg).1 (λ _. ok.not_halted),
        (hours_none o ctx cfg).1 a.open_market,
        buy_limits o ctx cfg ok b,
        day.1 ok.within_day,
        pos.1 ok.within_positions,
        (weight_none o ctx cfg ok.notional b ok.known).1 ok.within_weight,
      )

  admits_pass :
      (o : OrderRequest D) (ctx : GuardrailContext D) (cfg : GuardrailConfig D)
      → Admitted o ctx cfg
      → AllPass o ctx cfg
  unfolding AllPass
  admits_pass o ctx cfg a = elim (side_cases o) [
    | inl b ↦ admits_pass_buy o ctx cfg a b
    | inr s ↦
        let r = sell_none o ctx cfg s in
        (
          (kill_none o ctx cfg).1 a.no_kill,
          r.0,
          (hours_none o ctx cfg).1 a.open_market,
          r.1,
          r.2,
          r.3,
          r.4,
        )
  ]

  -- run_guardrails reports no violation exactly for the admitted orders: the kill switch is
  -- off, the market is open or its hours are not enforced, and a buy meets an untripped
  -- breaker, has a known cost within the limit of one order and of the day, and keeps the
  -- number of positions and the weight of the symbol within their limits.
  pub run_guardrails-nil_iff :
      (o : OrderRequest D) (ctx : GuardrailContext D) (cfg : GuardrailConfig D)
      → (run_guardrails o ctx cfg ≡ []) ↔ Admitted o ctx cfg
  run_guardrails-nil_iff o ctx cfg = (
    (λ h.
        let p = (run-nil_iff o ctx cfg).0 h in
        record {
          no_kill = (kill_none o ctx cfg).0 (unfold AllPass in p.0);
          open_market = (hours_none o ctx cfg).0 (unfold AllPass in p.2);
          buy_ok = pass_admits_buy o ctx cfg p;
        }),
    (λ a. (run-nil_iff o ctx cfg).1 (admits_pass o ctx cfg a)),
  )
