-- ===== src/Api/Hours.antt =====
-- The hours in which the built-in loop runs ticks (server/app/api/tick.py, in_market_hours).
use auto_trade_stock_demo.Prelude.{
  Bool, true, false, ◌||◌, ◌&&◌, none, leb, ◌≡◌, ◌↔◌, not, arith, if◌then◌else◌,
}
use auto_trade_stock_demo.Numeric.{Numeric}
use auto_trade_stock_demo.Clock.{DateTime, astimezone, date, time, weekday, kst}
use auto_trade_stock_demo.Orders.Models.{OrderRequest}
use auto_trade_stock_demo.Orders.Guardrails.{
  GuardrailConfig, GuardrailContext, guard_market_hours, is_holiday,
}
use auto_trade_stock_demo.Api.Controls.{market_open_now}

unfoldable pub in_market_hours : {D : Type 0} → DateTime → GuardrailConfig D → Bool
in_market_hours now cfg =
    let local = astimezone now kst in
    if leb 5 (weekday (date local)) || is_holiday (date local) cfg.holidays
    then false
    else leb cfg.market_open (time local) && leb (time local) cfg.market_close

-- A round of the loop runs a tick: the broker is set up and, where the hours are enforced, it is
-- within them.
unfoldable pub ticks_now : {D : Type 0} → Bool → DateTime → GuardrailConfig D → Bool
unfolding in_market_hours
ticks_now has_broker now cfg =
    if has_broker
    then (if cfg.enforce_market_hours then in_market_hours now cfg else true)
    else false

module _ {D : Type 0} ⦃n : Numeric D⦄ where
  -- A round of the loop with a broker runs a tick exactly if the guardrail on market hours
  -- lets an order of that instant through.
  pub ticks_now-guard_market_hours :
      (o : OrderRequest D) (ctx : GuardrailContext D) (cfg : GuardrailConfig D)
      → (ticks_now true ctx.now cfg ≡ true) ↔ (guard_market_hours o ctx cfg ≡ none)
  unfolding ticks_now in_market_hours guard_market_hours
  ticks_now-guard_market_hours o ctx cfg = ground arith

-- The status says that the market is open exactly if the loop takes it to be open or the day is a
-- holiday with these hours on a weekday.
pub market_open_now-in_market_hours :
    {D : Type 0} (now : DateTime) (cfg : GuardrailConfig D)
    → in_market_hours now cfg
      ≡ (market_open_now cfg now && not (is_holiday (date (astimezone now kst)) cfg.holidays))
unfolding market_open_now in_market_hours
market_open_now-in_market_hours now cfg = ground arith
