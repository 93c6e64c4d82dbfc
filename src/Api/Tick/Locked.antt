-- ===== src/Api/Tick/Locked.antt =====
-- What a whole tick of the server does to the orders.
use auto_trade_stock_demo.Prelude.{
  String, Bool, true, false, Option, none, some, ◌≡◌, refl, ap, ◌∙◌, arith, if◌then◌else◌,
}
use auto_trade_stock_demo.Numeric.{Numeric}
use auto_trade_stock_demo.Orders.Models.{TradingMode}
use auto_trade_stock_demo.Orders.Service.{OrderService}
use auto_trade_stock_demo.Orders.Breaker.{tripped}
use auto_trade_stock_demo.Engine.Costs.{Floats}
use auto_trade_stock_demo.Engine.Pipeline.{TickResult, run_tick}
use auto_trade_stock_demo.Engine.Pipeline.Ticks.{run_tick_dry_run}
use auto_trade_stock_demo.Engine.Pipeline.Stages.{Toss}
use auto_trade_stock_demo.Api.World.{World, notify}
use auto_trade_stock_demo.Api.Judging.{Engine, engine_of}
use auto_trade_stock_demo.Api.Tick.{
  TickOutcome, finish, run_prepared, with_paper, with_prepared, with_broker, execute_tick_locked,
  execute_tick, pg_tick_lock,
}
use auto_trade_stock_demo.Api.Tick.Env.{TickEnv, Prepared, PaperSetup}
use auto_trade_stock_demo.Api.Tick.Preparing.{prepare, open_paper, tick_inputs}
use auto_trade_stock_demo.Api.Tick.Recording.{tell_breaker, record_all}
use auto_trade_stock_demo.Api.Tick.Untouched.{Untouched, prepare-Untouched, open_paper-Untouched}

pub either : {A : Type 0} (b : Bool) (P : A → Type 0) (p q : A) → P p → P q → P (if b then p else q)
either true P p q h k = h
either false P p q h k = k

module _ {F D : Type 0} ⦃m : Numeric F⦄ ⦃n : Numeric D⦄ where
  pub tell_keeps :
      (w : World F D) (before : Bool)
      → ((tell_breaker w before).service ≡ w.service) × ((tell_breaker w before).db ≡ w.db)
  unfolding tell_breaker notify
  tell_keeps w before = ground arith

  pub record_all_keeps :
      (e : TickEnv F D) (w : World F D) (ps : PaperSetup D) (r : TickResult F D)
      → (record_all e w ps r).service ≡ w.service
  unfolding record_all
  record_all_keeps e w ps r = refl

module _ {F D : Type 0} ⦃m : Numeric F⦄ ⦃n : Numeric D⦄ (x : Floats F D) where
  pub finish_keeps :
      (e : TickEnv F D) (w : World F D) (before : Bool) (ps : PaperSetup D)
      (out : Option (TickResult F D))
      → (finish x e w before ps out).0.service ≡ w.service
  finish_keeps e w before ps none = refl
  finish_keeps e w before ps (some r) =
      either e.has_repo (λ (v : World F D). v.service ≡ w.service) _ _
        (record_all_keeps e (tell_breaker w before) ps r ∙ (tell_keeps w before).0)
        (tell_keeps w before).0

  prepared_dry :
      (e : TickEnv F D) (w : World F D) (g : Engine) (p : Prepared D) (ps : PaperSetup D)
      → w.service.mode ≡ TradingMode.dry_run
      → (run_prepared x e w g p ps).0.service.placed ≡ w.service.placed
  unfolding run_prepared
  prepared_dry e w g p ps dry =
      ap (λ (s : OrderService D). s.placed)
        (finish_keeps e (record w { service = (run_tick x (tick_inputs e w g p ps) w.service).0 })
          (tripped w.service.circuit_breaker) ps (run_tick x (tick_inputs e w g p ps) w.service).1)
      ∙ run_tick_dry_run x (tick_inputs e w g p ps) w.service dry

  paper_dry :
      (e : TickEnv F D) (w : World F D) (g : Engine) (p : Prepared D)
      (q : World F D × Option (PaperSetup D))
      → Untouched w q.0
      → w.service.mode ≡ TradingMode.dry_run
      → (with_paper x e g p q).0.service.placed ≡ w.service.placed
  paper_dry e w g p (w', none) u dry = u.same_placed
  paper_dry e w g p (w', some ps) u dry =
      prepared_dry e w' g p ps (u.same_mode ∙ dry) ∙ u.same_placed

  broker_dry :
      (e : TickEnv F D) (w : World F D) (g : Engine) (q : World F D × Option (Prepared D))
      → Untouched w q.0
      → w.service.mode ≡ TradingMode.dry_run
      → (with_prepared x e g q).0.service.placed ≡ w.service.placed
  broker_dry e w g (w', none) u dry = u.same_placed
  broker_dry e w g (w', some p) u dry =
      paper_dry e w' g p (open_paper e w') (open_paper-Untouched e w') (u.same_mode ∙ dry)
      ∙ u.same_placed

  toss_dry :
      (e : TickEnv F D) (w : World F D) (g : Engine) (toss : Option (Toss D))
      → w.service.mode ≡ TradingMode.dry_run
      → (with_broker x e w g toss).0.service.placed ≡ w.service.placed
  toss_dry e w g none dry = refl
  toss_dry e w g (some toss) dry =
      broker_dry e w g (prepare e w toss) (prepare-Untouched e w toss) dry

  -- In DRY_RUN mode no tick of the server places an order, whichever way it ends.
  pub execute_tick_dry_run :
      (locked : Bool) (dialect : Option String) (answer : Bool) (e : TickEnv F D) (w : World F D)
      → w.service.mode ≡ TradingMode.dry_run
      → (execute_tick x locked dialect answer e w).0.service.placed ≡ w.service.placed
  unfolding execute_tick execute_tick_locked
  execute_tick_dry_run locked dialect answer e w dry =
      either locked (λ (q : World F D × TickOutcome F D). q.0.service.placed ≡ w.service.placed) _ _
        refl
        (either (pg_tick_lock dialect answer)
          (λ (q : World F D × TickOutcome F D). q.0.service.placed ≡ w.service.placed) _ _
          (toss_dry e w (engine_of e.has_repo w.db e.settings e.now) e.toss dry) refl)
