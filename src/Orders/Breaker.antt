-- ===== src/Orders/Breaker.antt =====
-- The loss circuit breaker (server/app/orders/circuit_breaker.py): a state machine that each tick
-- advances by `assess`. Its dump to JSON and back is in the child Persist.
pub mod HighWater
pub mod Latch
pub mod Daily
pub mod Drawdown
pub mod Persist
use auto_trade_stock_demo.Prelude.{
  ℕ, Bool, true, false, not, ◌&&◌, ◌||◌, Option, none, some, List, [], ◌∷◌, ◌++◌, eqb, Message,
  Part, if◌then◌else◌, is_some,
}
use auto_trade_stock_demo.Numeric.{
  Numeric, ◌-◌, ◌*◌, ◌/◌, neg, ◌<=◌, ◌>=◌, ◌>◌, dec, lit, max, truthy,
}
use auto_trade_stock_demo.Clock.{DateTime, date}

pub record CircuitBreakerConfig (D : Type 0) : Type 0 where
  pub daily_loss_limit : D
  pub max_drawdown_limit : D
  pub rearm_drawdown : D

pub record CircuitBreaker (D : Type 0) : Type 0 where
  pub config : CircuitBreakerConfig D
  pub high_water_mark : Option D
  pub drawdown : D
  pub daily_halt_date : Option ℕ
  pub drawdown_halt : Bool
  pub today : Option ℕ
  pub reason : Message D

abbrev pub same_date : Option ℕ → Option ℕ → Bool
same_date none t = false
same_date (some h) none = false
same_date (some h) (some t) = eqb h t

-- `_daily_halt_active`
unfoldable pub daily_halt_active : {D : Type 0} → CircuitBreaker D → Bool
daily_halt_active b = same_date b.daily_halt_date b.today

unfoldable pub tripped : {D : Type 0} → CircuitBreaker D → Bool
unfolding daily_halt_active
tripped b = b.drawdown_halt || daily_halt_active b

module _ {D : Type 0} ⦃n : Numeric D⦄ where
  unfoldable pub default_config : CircuitBreakerConfig D
  default_config = record {
    daily_loss_limit = lit 5 2;
    max_drawdown_limit = lit 15 2;
    rearm_drawdown = lit 8 2;
  }

  -- `CircuitBreaker(config)`
  unfoldable pub fresh : CircuitBreakerConfig D → CircuitBreaker D
  fresh c = record {
    config = c;
    high_water_mark = none;
    drawdown = dec 0;
    daily_halt_date = none;
    drawdown_halt = false;
    today = none;
    reason = [];
  }

  -- `hwm is None or equity > hwm`, and the assignment under it.
  abbrev raise_mark : Option D → D → D
  raise_mark none e = e
  raise_mark (some h) e = if e > h then e else h

  abbrev drawdown_from : D → D → D → D
  drawdown_from h e old = if h > dec 0 then max (dec 0) ((h - e) / h) else old

  -- The high-water mark and the drawdown, for a known positive equity.
  unfoldable pub update_mark : CircuitBreaker D → Option D → CircuitBreaker D
  update_mark b none = b
  update_mark b (some e) =
      if e > dec 0
      then (let h = raise_mark b.high_water_mark e in
          record b { high_water_mark = some h; drawdown = drawdown_from h e b.drawdown })
      else b

  abbrev mark_truthy : Option D → Bool
  mark_truthy none = false
  mark_truthy (some h) = truthy h

  -- The drawdown latch, with its hysteresis.
  unfoldable pub update_latch : CircuitBreaker D → Option D → CircuitBreaker D
  update_latch b e =
      if is_some e && mark_truthy b.high_water_mark
      then if b.drawdown >= b.config.max_drawdown_limit
        then record b { drawdown_halt = true }
        else if b.drawdown_halt && (b.drawdown <= b.config.rearm_drawdown)
        then record b { drawdown_halt = false }
        else b
      else b

  abbrev pub loss_reached : CircuitBreakerConfig D → Option D → Bool
  loss_reached c none = false
  loss_reached c (some r) = r <= neg c.daily_loss_limit

  unfoldable pub update_daily : CircuitBreaker D → Option D → ℕ → CircuitBreaker D
  update_daily b rate d =
      if loss_reached b.config rate then record b { daily_halt_date = some d } else b

  abbrev daily_part : CircuitBreaker D → Option D → Message D
  daily_part b none = []
  daily_part b (some r) =
      if daily_halt_active b
      then Part.lit "일일 손실 "
        ∷ Part.fmt ".2f" (r * dec 100)
        ∷ Part.lit "% (한도 -"
        ∷ Part.fmt ".0f" (b.config.daily_loss_limit * dec 100)
        ∷ Part.lit "%)"
        ∷ []
      else []

  abbrev drawdown_part : CircuitBreaker D → Message D
  drawdown_part b =
      if b.drawdown_halt
      then Part.lit "고점대비 낙폭 -"
        ∷ Part.fmt ".2f" (b.drawdown * dec 100)
        ∷ Part.lit "% (한도 -"
        ∷ Part.fmt ".0f" (b.config.max_drawdown_limit * dec 100)
        ∷ Part.lit "%)"
        ∷ []
      else []

  -- `", ".join(parts)`, of at most two parts.
  abbrev join : Message D → Message D → Message D
  join [] m = m
  join (p ∷ ps) [] = p ∷ ps
  join (p ∷ ps) (q ∷ qs) = (p ∷ ps) ++ (Part.lit ", " ∷ q ∷ qs)

  abbrev wrap : Message D → Message D
  wrap [] = []
  wrap (p ∷ ps) = Part.lit "서킷브레이커 발동 — 신규 진입 중단 (" ∷ (p ∷ ps) ++ (Part.lit ")" ∷ [])

  unfoldable pub build_reason : CircuitBreaker D → Option D → Message D
  build_reason b rate = wrap (join (daily_part b rate) (drawdown_part b))

  -- The state that `assess` leaves, before its reason is written.
  unfoldable pub transition : CircuitBreaker D → Option D → Option D → ℕ → CircuitBreaker D
  unfolding update_mark update_latch update_daily
  transition b equity rate d =
      update_daily (update_latch (update_mark (record b { today = some d }) equity) equity) rate d

  -- `assess(equity, daily_pl_rate, now)`: the new state, and whether it is tripped.
  unfoldable pub assess :
      CircuitBreaker D → Option D → Option D → DateTime → CircuitBreaker D × Bool
  unfolding transition tripped
  assess b equity rate now =
      let b' = transition b equity rate (date now) in
      (record b' { reason = build_reason b' rate }, tripped b')

  unfoldable pub reset : CircuitBreaker D → CircuitBreaker D
  reset b = record b {
    high_water_mark = none;
    drawdown = dec 0;
    drawdown_halt = false;
    daily_halt_date = none;
    reason = [];
  }
