-- ===== src/Db/Ledger/Days.antt =====
-- The ticks of one day, each of which reads the sum of the day from the database and records its
-- orders there, with restarts of the server between them.
use auto_trade_stock_demo.Prelude.{ℕ, String, true, some, List, ◌≡◌, refl, sym, ◌∙◌}
use mathlib.Core.Path.{subst, subst₂}
use auto_trade_stock_demo.Numeric.{Numeric, ◌<=◌}
use auto_trade_stock_demo.Clock.{DateTime}
use auto_trade_stock_demo.Orders.Models.{OrderResult}
use auto_trade_stock_demo.Orders.Breaker.Persist.{ReadsBack}
use auto_trade_stock_demo.Orders.Guardrails.{GuardrailConfig}
use auto_trade_stock_demo.Orders.Service.{OrderService, assess_circuit_breaker}
use auto_trade_stock_demo.Orders.Service.Submit.{submit_keeps}
use auto_trade_stock_demo.Engine.Costs.{Floats}
use auto_trade_stock_demo.Engine.Pipeline.{TickInputs, TickResult, run_tick}
use auto_trade_stock_demo.Engine.Pipeline.Cap.{total_bought}
use auto_trade_stock_demo.Engine.Pipeline.Budget.{WithinBudget, run_tick-WithinBudget}
use auto_trade_stock_demo.Engine.Pipeline.Ticks.{run_tick_keeps}
use auto_trade_stock_demo.Db.Rows.{Columns, Database, next_id}
use auto_trade_stock_demo.Db.Ledger.{Stamped, record_tick, buy_notional_today}
use auto_trade_stock_demo.Db.Ledger.Budget.{AllNew, results_of, add_orders-total_bought}

module _ {F D : Type 0} ⦃m : Numeric F⦄ ⦃n : Numeric D⦄ (x : Floats F D) (c : Columns D)
    (show : F → String) (d : ℕ) where
  -- A tick of the day d and a restart, which keeps the configuration.
  pub data DayRun (db₀ : Database F D) (s₀ : OrderService D)
      : Database F D → OrderService D → Type 0 where
    start : DayRun db₀ s₀ db₀ s₀
    restart :
        {db : Database F D} {s : OrderService D}
        → DayRun db₀ s₀ db s
        → (s' : OrderService D) → s'.config ≡ s.config
        → DayRun db₀ s₀ db s'
    tick :
        {db : Database F D} {s : OrderService D}
        → DayRun db₀ s₀ db s
        → (inp : TickInputs F D) (r : TickResult F D) (orders : List (Stamped D))
        → buy_notional_today c db d ≡ some inp.daily_buy_used_krw
        → (run_tick x inp s).1 ≡ some r
        → results_of orders ≡ r.orders
        → AllNew c db.orders (some (next_id db.ticks)) d orders
        → DayRun db₀ s₀ (record_tick c show db r orders inp.now).0 (run_tick x inp s).0

  -- The buys recorded for the day are within the limit.
  abbrev pub DayWithinCap : Database F D → OrderService D → Type 0
  DayWithinCap db s =
      (used : D) × (buy_notional_today c db d ≡ some used)
      × ((used <= s.config.daily_buy_cap_krw) ≡ true)

  pub config_stays :
      (inp : TickInputs F D) (s : OrderService D) → (run_tick x inp s).0.config ≡ s.config
  unfolding assess_circuit_breaker
  config_stays inp s =
      run_tick_keeps x (λ (t : OrderService D). t.config ≡ s.config)
        (λ t o ctx e. (submit_keeps t o ctx).2 ∙ e) (λ t equity rate now e. e) inp s refl

  record_tick-total_bought :
      (b : ReadsBack c.texts) (db : Database F D) (r : TickResult F D) (orders : List (Stamped D))
      (now : DateTime) (used : D)
      → buy_notional_today c db d ≡ some used
      → AllNew c db.orders (some (next_id db.ticks)) d orders
      → buy_notional_today c (record_tick c show db r orders now).0 d
        ≡ some (total_bought used (results_of orders))
  unfolding buy_notional_today record_tick
  record_tick-total_bought b db r orders now used h a =
      add_orders-total_bought c b db.orders (some (next_id db.ticks)) orders d _ used a h

  used_within :
      (db : Database F D) (s : OrderService D) (used : D)
      → DayWithinCap db s
      → buy_notional_today c db d ≡ some used
      → (used <= s.config.daily_buy_cap_krw) ≡ true
  used_within db s used (u, e, w) h = let same : used ≡ u = cc in rw same w

  pub DayWithinCap-tick :
      (b : ReadsBack c.texts) (db : Database F D) (s : OrderService D) (inp : TickInputs F D)
      (r : TickResult F D) (orders : List (Stamped D))
      → buy_notional_today c db d ≡ some inp.daily_buy_used_krw
      → (run_tick x inp s).1 ≡ some r
      → results_of orders ≡ r.orders
      → AllNew c db.orders (some (next_id db.ticks)) d orders
      → DayWithinCap db s
      → DayWithinCap (record_tick c show db r orders inp.now).0 (run_tick x inp s).0
  DayWithinCap-tick b db s inp r orders read ran same new (used, e, w) = (
    total_bought inp.daily_buy_used_krw (results_of orders),
    record_tick-total_bought b db r orders inp.now inp.daily_buy_used_krw read new,
    subst₂
        (λ (rs : List (OrderResult D)) (g : GuardrailConfig D).
          (total_bought inp.daily_buy_used_krw rs <= g.daily_buy_cap_krw) ≡ true)
        (sym same) (sym (config_stays inp s))
        (subst (λ out. WithinBudget x s.config inp out) ran
          (run_tick-WithinBudget x inp s
            (used_within db s inp.daily_buy_used_krw (used, e, w) read))),
  )

  -- Over the ticks of a day and restarts between them, the buys recorded for the day stay
  -- within the daily limit, if they are at the start, the texts of the columns read back,
  -- every tick reads the sum of the day before it runs, and its orders have new ids, dates of
  -- this day and costs that are not zero.
  pub DayRun-DayWithinCap :
      {db₀ : Database F D} {s₀ : OrderService D} {db : Database F D} {s : OrderService D}
      → ReadsBack c.texts
      → DayWithinCap db₀ s₀
      → DayRun db₀ s₀ db s
      → DayWithinCap db s
  DayRun-DayWithinCap b w start = w
  DayRun-DayWithinCap b w (restart run s' e) =
      let (used, h, k) = DayRun-DayWithinCap b w run in
      (used, h, subst (λ (g : GuardrailConfig D). (used <= g.daily_buy_cap_krw) ≡ true) (sym e) k)
  DayRun-DayWithinCap b w (tick run inp r orders read ran same new) =
      DayWithinCap-tick b _ _ inp r orders read ran same new (DayRun-DayWithinCap b w run)
