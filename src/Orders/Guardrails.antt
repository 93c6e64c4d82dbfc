-- ===== src/Orders/Guardrails.antt =====
-- The hard guardrails (server/app/orders/guardrails.py), one function for each, and the run over
-- all of them. A set of ISO dates is a list of ordinals.
pub mod Admission
pub mod Liquidation
use Prim.Native.Nat.{◌+◌ as nat_add}
use auto_trade_stock_demo.Prelude.{
  ℕ, String, Bool, true, false, not, ◌&&◌, ◌||◌, Option, none, some, List, [], ◌∷◌, leb, ltb, eqb,
  contains, Message, Part, text_or, if◌then◌else◌,
}
use auto_trade_stock_demo.Numeric.{Numeric, ◌+◌, ◌/◌, ◌<=◌, ◌>◌, ◌*◌, dec, lit, or_zero}
use auto_trade_stock_demo.Clock.{DateTime, astimezone, date, time, weekday, clock, kst}
use auto_trade_stock_demo.Orders.Models.{OrderRequest, Side, buy, sell, estimated_notional}

pub record GuardrailConfig (D : Type 0) : Type 0 where
  pub per_order_max_krw : D
  pub daily_buy_cap_krw : D
  pub max_positions : ℕ
  pub per_symbol_max_weight : D
  pub market_open : ℕ
  pub market_close : ℕ
  pub enforce_market_hours : Bool
  pub holidays : List ℕ

-- `GuardrailConfig()`
unfoldable pub default_config : {D : Type 0} ⦃n : Numeric D⦄ → GuardrailConfig D
default_config = record {
  per_order_max_krw = dec 100000;
  daily_buy_cap_krw = dec 500000;
  max_positions = 10;
  per_symbol_max_weight = lit 10 2;
  market_open = clock 9 0;
  market_close = clock 15 30;
  enforce_market_hours = true;
  holidays = [];
}

pub record GuardrailContext (D : Type 0) : Type 0 where
  pub now : DateTime
  pub kill_switch : Bool
  pub open_positions : ℕ
  pub held_symbols : List String
  pub daily_buy_used_krw : D
  pub portfolio_value_krw : Option D
  pub symbol_current_value_krw : D
  pub circuit_breaker_halt : Bool
  pub circuit_breaker_reason : Message D

pub data ViolationCode : Type 0 where
  kill_switch_code circuit_breaker_code market_closed unbounded_cost per_order_max daily_buy_cap
        max_positions_code per_symbol_weight :
      ViolationCode

pub record Violation (D : Type 0) : Type 0 where
  pub code : ViolationCode
  pub reason : Message D

unfoldable pub is_buy : {D : Type 0} → OrderRequest D → Bool
is_buy o = elim (o.side) [ buy ↦ true | sell ↦ false ]

-- `n.date().isoformat() in holidays`
unfoldable pub is_holiday : ℕ → List ℕ → Bool
is_holiday d [] = false
is_holiday d (h ∷ hs) = eqb h d || is_holiday d hs

abbrev pub Guard : Type 0 → Type 0
Guard D = OrderRequest D → GuardrailContext D → GuardrailConfig D → Option (Violation D)

-- One round of the comprehension in `run_guardrails`.
abbrev pub keep_some {ℓ} : {A : Type ℓ} → Option A → List A → List A
keep_some none rest = rest
keep_some (some v) rest = v ∷ rest

module _ {D : Type 0} ⦃n : Numeric D⦄ where
  abbrev violation : ViolationCode → Message D → Option (Violation D)
  violation c m = some (record { code = c; reason = m })

  unfoldable pub guard_kill_switch : Guard D
  guard_kill_switch o ctx cfg =
      if ctx.kill_switch
      then violation kill_switch_code (Part.lit "킬스위치 작동 중 — 모든 주문 차단" ∷ [])
      else none

  unfoldable pub guard_circuit_breaker : Guard D
  unfolding is_buy
  guard_circuit_breaker o ctx cfg =
      if not (is_buy o)
      then none
      else if ctx.circuit_breaker_halt
      then violation circuit_breaker_code
          (text_or ctx.circuit_breaker_reason (Part.lit "서킷브레이커 발동 — 신규 진입 중단" ∷ []))
      else none

  unfoldable pub guard_market_hours : Guard D
  unfolding is_holiday
  guard_market_hours o ctx cfg =
      let t = astimezone ctx.now kst in
      if not cfg.enforce_market_hours
      then none
      else if leb 5 (weekday (date t))
      then violation market_closed
          (Part.lit "주말(KST " ∷ Part.time t.instant ∷ Part.lit ") — KRX 휴장" ∷ [])
      else if is_holiday (date t) cfg.holidays
      then violation market_closed
          (Part.lit "공휴일(" ∷ Part.time t.instant ∷ Part.lit ") — KRX 휴장" ∷ [])
      else if not (leb cfg.market_open (time t) && leb (time t) cfg.market_close)
      then violation market_closed (
          Part.lit "장시간 외 (KST "
          ∷ Part.time t.instant
          ∷ Part.lit ", 허용 "
          ∷ Part.time cfg.market_open
          ∷ Part.lit "-"
          ∷ Part.time cfg.market_close
          ∷ Part.lit ")"
          ∷ [])
      else none

  abbrev check_notional : GuardrailConfig D → Option D → Option (Violation D)
  check_notional cfg none =
      violation unbounded_cost (Part.lit "매수 비용 추정 불가(price/orderAmount 없음) — 안전상 차단" ∷ [])
  check_notional cfg (some notional) =
      if notional > cfg.per_order_max_krw
      then violation per_order_max (
          Part.lit "1주문 한도 초과: "
          ∷ Part.num notional
          ∷ Part.lit " > "
          ∷ Part.num cfg.per_order_max_krw
          ∷ [])
      else none

  unfoldable pub guard_per_order_max : Guard D
  unfolding is_buy
  guard_per_order_max o ctx cfg =
      if not (is_buy o) then none else check_notional cfg (estimated_notional o)

  unfoldable pub guard_daily_buy_cap : Guard D
  unfolding is_buy
  guard_daily_buy_cap o ctx cfg =
      if not (is_buy o)
      then none
      else let total = ctx.daily_buy_used_krw + or_zero (estimated_notional o) in
        if total > cfg.daily_buy_cap_krw
        then violation daily_buy_cap (
            Part.lit "일일 매수 한도 초과: "
            ∷ Part.num total
            ∷ Part.lit " > "
            ∷ Part.num cfg.daily_buy_cap_krw
            ∷ [])
        else none

  unfoldable pub guard_max_positions : Guard D
  unfolding is_buy
  guard_max_positions o ctx cfg =
      if not (is_buy o)
      then none
      else if contains ctx.held_symbols o.symbol
      then none
      else if ltb cfg.max_positions (nat_add ctx.open_positions 1)
      then violation max_positions_code (
          Part.lit "최대 보유 종목 수 초과: "
          ∷ Part.nat (nat_add ctx.open_positions 1)
          ∷ Part.lit " > "
          ∷ Part.nat cfg.max_positions
          ∷ [])
      else none

  abbrev check_weight : GuardrailContext D → GuardrailConfig D → D → Option D → Option (Violation D)
  check_weight ctx cfg notional none = none
  check_weight ctx cfg notional (some portfolio) =
      let resulting = ctx.symbol_current_value_krw + notional in
      let denom = portfolio + notional in
      let weight = resulting / denom in
      if denom <= dec 0
      then none
      else if weight > cfg.per_symbol_max_weight
      then violation per_symbol_weight (
          Part.lit "종목 비중 초과: "
          ∷ Part.fmt ".2f" (weight * dec 100)
          ∷ Part.lit "% > "
          ∷ Part.fmt ".2f" (cfg.per_symbol_max_weight * dec 100)
          ∷ Part.lit "%"
          ∷ [])
      else none

  unfoldable pub guard_per_symbol_weight : Guard D
  unfolding is_buy
  guard_per_symbol_weight o ctx cfg =
      if not (is_buy o)
      then none
      else check_weight ctx cfg (or_zero (estimated_notional o)) ctx.portfolio_value_krw

  unfoldable pub all_guardrails : List (Guard D)
  all_guardrails =
      guard_kill_switch ∷ guard_circuit_breaker ∷ guard_market_hours ∷ guard_per_order_max
      ∷ guard_daily_buy_cap ∷ guard_max_positions ∷ guard_per_symbol_weight ∷ []

  unfoldable pub run_each :
      OrderRequest D → GuardrailContext D → GuardrailConfig D → List (Guard D) → List (Violation D)
  run_each o ctx cfg [] = []
  run_each o ctx cfg (g ∷ gs) = keep_some (g o ctx cfg) (run_each o ctx cfg gs)

  -- `run_guardrails(order, ctx, cfg)`, with the default list.
  unfoldable pub run_guardrails :
      OrderRequest D → GuardrailContext D → GuardrailConfig D → List (Violation D)
  unfolding run_each all_guardrails
  run_guardrails o ctx cfg = run_each o ctx cfg all_guardrails
