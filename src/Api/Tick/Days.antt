-- ===== src/Api/Tick/Days.antt =====
-- The daily limit over the ticks of the server.
use mathlib.Core.Path.{subst, subst₂}
use auto_trade_stock_demo.Prelude.{
  ℕ, suc, String, true, Bool, Option, none, some, List, [], ◌∷◌, ◌≡◌, refl, ap, sym, ◌∙◌, IfKnown,
  if◌then◌else◌,
}
use auto_trade_stock_demo.Numeric.{Numeric, ◌<=◌, dec}
use auto_trade_stock_demo.Clock.{DateTime}
use auto_trade_stock_demo.Toss.{Holdings}
use auto_trade_stock_demo.Orders.Models.{OrderResult}
use auto_trade_stock_demo.Orders.Breaker.{tripped}
use auto_trade_stock_demo.Orders.Breaker.Persist.{ReadsBack}
use auto_trade_stock_demo.Orders.Guardrails.{GuardrailConfig}
use auto_trade_stock_demo.Orders.Service.{OrderService}
use auto_trade_stock_demo.Orders.Reconcile.{ReconcileReport}
use auto_trade_stock_demo.Engine.Costs.{Floats}
use auto_trade_stock_demo.Engine.Paper.{PaperPortfolio}
use auto_trade_stock_demo.Engine.Pipeline.{TickResult, run_tick}
use auto_trade_stock_demo.Engine.Pipeline.Stages.{Toss}
use auto_trade_stock_demo.Db.Rows.{Columns, Database, OrderRow, TickRow, next_id}
use auto_trade_stock_demo.Db.Ledger.{record_tick, buy_notional_today, trade_date_kst}
use auto_trade_stock_demo.Db.Ledger.Budget.{AllNew, results_of}
use auto_trade_stock_demo.Db.Ledger.Days.{DayWithinCap, DayWithinCap-tick, config_stays}
use auto_trade_stock_demo.Db.State.{save_engine_state}
use auto_trade_stock_demo.Db.Stats.{upsert_symbol_stats}
use auto_trade_stock_demo.Db.PaperBook.{save_paper, append_paper_equity}
use auto_trade_stock_demo.Api.World.{World}
use auto_trade_stock_demo.Api.Judging.{Engine, engine_of}
use auto_trade_stock_demo.Api.Tick.{
  TickOutcome, ticked, failed, no_credentials, running_here, running_elsewhere, finish,
  run_prepared, with_paper, with_prepared, with_broker, execute_tick_locked,
}
use auto_trade_stock_demo.Api.Tick.Env.{TickEnv, Prepared, PaperSetup}
use auto_trade_stock_demo.Api.Tick.Preparing.{
  prepare, prepare_with, reconciled, open_paper, tick_inputs,
}
use auto_trade_stock_demo.Api.Tick.Recording.{tell_breaker, record_all, keep_book, stamped}
use auto_trade_stock_demo.Api.Tick.Locked.{tell_keeps, record_all_keeps}
use auto_trade_stock_demo.Api.Tick.Untouched.{Untouched, prepare-Untouched, open_paper-Untouched}

results_of-stamped :
    {D : Type 0} (at : ℕ → DateTime) (k : ℕ) (rs : List (OrderResult D))
    → results_of (stamped at k rs) ≡ rs
unfolding stamped
results_of-stamped at k [] = refl
results_of-stamped at k (r ∷ rs) =
    ap (λ (q : List (OrderResult _)). r ∷ q) (results_of-stamped at (suc k) rs)

module _ {F D : Type 0} ⦃m : Numeric F⦄ ⦃n : Numeric D⦄ (x : Floats F D) (c : Columns D)
    (d : ℕ) where
  -- The database and the service are within the limit if they have the orders and the limits of
  -- others that are.
  moved-DayWithinCap :
      (show : F → String) (db db' : Database F D) (s s' : OrderService D)
      → db'.orders ≡ db.orders
      → s'.config ≡ s.config
      → DayWithinCap x c show d db s
      → DayWithinCap x c show d db' s'
  unfolding buy_notional_today
  moved-DayWithinCap show db db' s s' o g (used, h, k) = (
    used,
    rw o h,
    subst (λ (cfg : GuardrailConfig D). (used <= cfg.daily_buy_cap_krw) ≡ true) (sym g) k,
  )

module _ {F D : Type 0} ⦃m : Numeric F⦄ ⦃n : Numeric D⦄ where
  keep_book_orders :
      (e : TickEnv F D) (db : Database F D) (ps : PaperSetup D) (r : TickResult F D)
      (book : Option (PaperPortfolio D))
      → (keep_book e db ps r book).orders ≡ db.orders
  unfolding save_paper append_paper_equity
  keep_book_orders e db ps r none = refl
  keep_book_orders e db ps r (some p) = refl

  recorded_orders :
      (e : TickEnv F D) (w : World F D) (ps : PaperSetup D) (r : TickResult F D) (db : Database F D)
      → w.db ≡ db
      → (record_all e w ps r).db.orders
        ≡ (record_tick e.columns e.show db r (stamped e.created_at 0 r.orders) e.now).0.orders
  unfolding record_all upsert_symbol_stats save_engine_state
  recorded_orders e w ps r db same =
      keep_book_orders e _ ps r ps.book
      ∙ ap
          (λ (q : Database F D).
            (record_tick e.columns e.show q r (stamped e.created_at 0 r.orders) e.now).0.orders)
          same

  -- The orders of a tick that gave a result have new ids, dates of the tick's day and costs that
  -- are not zero.
  abbrev pub NewOrders : TickEnv F D → World F D → TickOutcome F D → Type 0
  NewOrders e w (ticked r) =
      AllNew e.columns w.db.orders (some (next_id w.db.ticks)) (trade_date_kst e.now)
        (stamped e.created_at 0 r.orders)
  NewOrders e w _ = Unit

  moved_new :
      (e : TickEnv F D) (w w' : World F D) (out : TickOutcome F D)
      → Untouched w w'
      → NewOrders e w out
      → NewOrders e w' out
  moved_new e w w' (ticked r) u new =
      subst₂
        (λ (rows : List (OrderRow D)) (ticks : List (TickRow D)).
          AllNew e.columns rows (some (next_id ticks)) (trade_date_kst e.now)
            (stamped e.created_at 0 r.orders))
        (sym u.same_orders) (sym u.same_ticks) new
  moved_new e w w' no_credentials u new = tt
  moved_new e w w' failed u new = tt
  moved_new e w w' running_here u new = tt
  moved_new e w w' running_elsewhere u new = tt

  -- The sum of the day that a tick starts from is that of the database.
  abbrev ReadsDay : TickEnv F D → World F D → Option (Prepared D) → Type 0
  ReadsDay e w out =
      IfKnown out
        (λ p. buy_notional_today e.columns w.db (trade_date_kst e.now) ≡ some p.daily_used)

  reconciled-ReadsDay :
      (e : TickEnv F D) (w : World F D) (used : D) (h : Holdings D)
      (out : Option (World F D × ReconcileReport D))
      → buy_notional_today e.columns w.db (trade_date_kst e.now) ≡ some used
      → ReadsDay e w (reconciled w used h out).1
  reconciled-ReadsDay e w used h none read = tt
  reconciled-ReadsDay e w used h (some (w', r)) read = read

  prepared-ReadsDay :
      (e : TickEnv F D) (w : World F D) (used : Option D) (h : Option (Holdings D))
      → buy_notional_today e.columns w.db (trade_date_kst e.now) ≡ used
      → ReadsDay e w (prepare_with e w used h).1
  prepared-ReadsDay e w none h read = tt
  prepared-ReadsDay e w (some used) none read = tt
  prepared-ReadsDay e w (some used) (some h) read = reconciled-ReadsDay e w used h _ read

  prepare-ReadsDay :
      (e : TickEnv F D) (w : World F D) (toss : Toss D)
      → e.has_repo ≡ true
      → ReadsDay e w (prepare e w toss).1
  unfolding prepare
  prepare-ReadsDay e w toss repo =
      subst
        (λ (h : Bool).
          ReadsDay e w
            (if h
              then prepare_with e w (buy_notional_today e.columns w.db (trade_date_kst e.now))
                  toss.get_holdings
              else (w, some (record { daily_used = dec 0; holdings = none; report = none }))).1)
        (sym repo)
        (prepared-ReadsDay e w (buy_notional_today e.columns w.db (trade_date_kst e.now))
          toss.get_holdings refl)

module _ {F D : Type 0} ⦃m : Numeric F⦄ ⦃n : Numeric D⦄ (x : Floats F D) (e : TickEnv F D)
    (repo : e.has_repo ≡ true) (b : ReadsBack e.columns.texts) where
  -- The buys of the tick's day are within the limit.
  abbrev pub TodayWithinCap : World F D → Type 0
  TodayWithinCap w = DayWithinCap x e.columns e.show (trade_date_kst e.now) w.db w.service

  recorded_within :
      (w v : World F D) (g : Engine) (p : Prepared D) (ps : PaperSetup D) (r : TickResult F D)
      → v.db ≡ w.db
      → v.service ≡ (run_tick x (tick_inputs e w g p ps) w.service).0
      → (run_tick x (tick_inputs e w g p ps) w.service).1 ≡ some r
      → buy_notional_today e.columns w.db (trade_date_kst e.now) ≡ some p.daily_used
      → NewOrders e w (ticked r)
      → TodayWithinCap w
      → TodayWithinCap (record_all e v ps r)
  unfolding tick_inputs
  recorded_within w v g p ps r same serv ran read new prior =
      moved-DayWithinCap x e.columns (trade_date_kst e.now) e.show
        (record_tick e.columns e.show w.db r (stamped e.created_at 0 r.orders) e.now).0
        (record_all e v ps r).db (run_tick x (tick_inputs e w g p ps) w.service).0
        (record_all e v ps r).service (recorded_orders e v ps r w.db same)
        (ap (λ (s : OrderService D). s.config) (record_all_keeps e v ps r ∙ serv))
        (DayWithinCap-tick x e.columns e.show (trade_date_kst e.now) b w.db w.service
          (tick_inputs e w g p ps) r (stamped e.created_at 0 r.orders) read ran
          (results_of-stamped e.created_at 0 r.orders) new prior)

  finished_within :
      (w : World F D) (g : Engine) (p : Prepared D) (ps : PaperSetup D) (before : Bool)
      (out : Option (TickResult F D))
      → (run_tick x (tick_inputs e w g p ps) w.service).1 ≡ out
      → buy_notional_today e.columns w.db (trade_date_kst e.now) ≡ some p.daily_used
      → NewOrders e w
          (finish x e
            (record w { service = (run_tick x (tick_inputs e w g p ps) w.service).0 })
            before
            ps
            out).1
      → TodayWithinCap w
      → TodayWithinCap
          (finish x e
            (record w { service = (run_tick x (tick_inputs e w g p ps) w.service).0 })
            before
            ps
            out).0
  finished_within w g p ps before none ran read new prior =
      moved-DayWithinCap x e.columns (trade_date_kst e.now) e.show w.db w.db w.service
        (run_tick x (tick_inputs e w g p ps) w.service).0 refl
        (config_stays x e.columns e.show (trade_date_kst e.now) (tick_inputs e w g p ps) w.service)
        prior
  finished_within w g p ps before (some r) ran read new prior =
      let v = record w { service = (run_tick x (tick_inputs e w g p ps) w.service).0 } in
      let told = tell_keeps v before in
      subst
        (λ (h : Bool).
          TodayWithinCap
            (if h then record_all e (tell_breaker v before) ps r else tell_breaker v before))
        (sym repo)
        (recorded_within w (tell_breaker v before) g p ps r told.1 told.0 ran read new prior)

  run_within :
      (w : World F D) (g : Engine) (p : Prepared D) (ps : PaperSetup D)
      → buy_notional_today e.columns w.db (trade_date_kst e.now) ≡ some p.daily_used
      → NewOrders e w (run_prepared x e w g p ps).1
      → TodayWithinCap w
      → TodayWithinCap (run_prepared x e w g p ps).0
  unfolding run_prepared
  run_within w g p ps read new prior =
      finished_within w g p ps (tripped w.service.circuit_breaker)
        (run_tick x (tick_inputs e w g p ps) w.service).1 refl read new prior

  stays_within : (w w' : World F D) → Untouched w w' → TodayWithinCap w → TodayWithinCap w'
  stays_within w w' u prior =
      moved-DayWithinCap x e.columns (trade_date_kst e.now) e.show w.db w'.db w.service w'.service
        u.same_orders u.same_config prior

  same_sum :
      (w w' : World F D) (p : Prepared D)
      → Untouched w w'
      → buy_notional_today e.columns w.db (trade_date_kst e.now) ≡ some p.daily_used
      → buy_notional_today e.columns w'.db (trade_date_kst e.now) ≡ some p.daily_used
  unfolding buy_notional_today
  same_sum w w' p u read = rw (u.same_orders) read

  paper_within :
      (w : World F D) (g : Engine) (p : Prepared D) (q : World F D × Option (PaperSetup D))
      → Untouched w q.0
      → buy_notional_today e.columns w.db (trade_date_kst e.now) ≡ some p.daily_used
      → NewOrders e w (with_paper x e g p q).1
      → TodayWithinCap w
      → TodayWithinCap (with_paper x e g p q).0
  paper_within w g p (w', none) u read new prior = stays_within w w' u prior
  paper_within w g p (w', some ps) u read new prior =
      run_within w' g p ps (same_sum w w' p u read) (moved_new e w w' _ u new)
        (stays_within w w' u prior)

  prepared_within :
      (w : World F D) (g : Engine) (q : World F D × Option (Prepared D))
      → Untouched w q.0
      → ReadsDay e w q.1
      → NewOrders e w (with_prepared x e g q).1
      → TodayWithinCap w
      → TodayWithinCap (with_prepared x e g q).0
  prepared_within w g (w', none) u read new prior = stays_within w w' u prior
  prepared_within w g (w', some p) u read new prior =
      paper_within w' g p (open_paper e w') (open_paper-Untouched e w') (same_sum w w' p u read)
        (moved_new e w w' _ u new) (stays_within w w' u prior)

  broker_within :
      (w : World F D) (g : Engine) (toss : Option (Toss D))
      → NewOrders e w (with_broker x e w g toss).1
      → TodayWithinCap w
      → TodayWithinCap (with_broker x e w g toss).0
  broker_within w g none new prior = prior
  broker_within w g (some toss) new prior =
      prepared_within w g (prepare e w toss) (prepare-Untouched e w toss)
        (prepare-ReadsDay e w toss repo) new prior

  -- With a database whose texts read back, a tick of the server that starts with the recorded
  -- buys of its day within the daily limit ends with them within it, whichever way it ends, if
  -- its orders have new ids, dates of the tick's day and costs that are not zero.
  pub execute_tick_locked-TodayWithinCap :
      (w : World F D)
      → NewOrders e w (execute_tick_locked x e w).1
      → TodayWithinCap w
      → TodayWithinCap (execute_tick_locked x e w).0
  unfolding execute_tick_locked
  execute_tick_locked-TodayWithinCap w new prior =
      broker_within w (engine_of e.has_repo w.db e.settings e.now) e.toss new prior
