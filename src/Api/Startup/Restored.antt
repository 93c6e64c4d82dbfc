-- ===== src/Api/Startup/Restored.antt =====
-- What survives a restart of the process.
use auto_trade_stock_demo.Prelude.{
  ℕ, Bool, true, false, some, List, ◌≡◌, refl, ap, ◌∙◌, arith, if◌then◌else◌,
}
use auto_trade_stock_demo.Numeric.{Numeric}
use auto_trade_stock_demo.Core.Settings.{Settings}
use auto_trade_stock_demo.Orders.Models.{TradingMode}
use auto_trade_stock_demo.Orders.Breaker.{CircuitBreaker, tripped, fresh}
use auto_trade_stock_demo.Orders.Breaker.Persist.{
  Texts, ReadsBack, dump_state, restore_state-dump_state,
}
use auto_trade_stock_demo.Orders.Service.{OrderService, engage_kill_switch}
use auto_trade_stock_demo.Db.Rows.{Columns, Database}
use auto_trade_stock_demo.Db.Ledger.{has_text}
use auto_trade_stock_demo.Db.State.{load_engine_state}
use auto_trade_stock_demo.Api.Startup.{
  Startup, running, default_key_in_production, sandbox_in_public, App, lifespan, refuses_key,
  refuses_sandbox, app_of, restore_service, new_service, breaker_config, killed_if, has_entries,
  app_with,
}
use auto_trade_stock_demo.Api.Startup.Modes.{stored_service}

dumped_entries :
    {D : Type 0} (x : Texts D) (b : CircuitBreaker D) → has_entries (dump_state x b) ≡ true
unfolding dump_state
dumped_entries x b = ground arith

module _ {D : Type 0} (x : Texts D) where
  -- The service that a restart makes from the state of the old one.
  abbrev pub Survives : OrderService D → OrderService D → Type 0
  Survives old s =
      (s.kill_switch ≡ old.kill_switch)
      × (tripped s.circuit_breaker ≡ tripped old.circuit_breaker)
      × (dump_state x s.circuit_breaker ≡ dump_state x old.circuit_breaker)

  -- The new service with the switch and the breaker of the old one.
  abbrev taken_over : OrderService D → OrderService D → OrderService D
  taken_over s old = record s {
    kill_switch = old.kill_switch;
    circuit_breaker = record old.circuit_breaker { reason = s.circuit_breaker.reason };
  }

  killed_lem :
      (kill : Bool) (s : OrderService D)
      → s.kill_switch ≡ false
      → killed_if kill s ≡ record s { kill_switch = kill }
  unfolding engage_kill_switch
  killed_lem true s off = refl
  killed_lem false s off = ground arith

  restored :
      (s old : OrderService D)
      → ReadsBack x
      → s.kill_switch ≡ false
      → s.circuit_breaker.config ≡ old.circuit_breaker.config
      → restore_service x s (some (old.kill_switch, dump_state x old.circuit_breaker))
        ≡ some (taken_over s old)
  unfolding restore_service
  restored s old b off same =
      rw
        (
          dumped_entries x old.circuit_breaker,
          killed_lem old.kill_switch s off,
          (restore_state-dump_state x old.circuit_breaker s.circuit_breaker b same).0,
        )
        refl

  taken_over-Survives : (s old : OrderService D) → Survives old (taken_over s old)
  unfolding tripped dump_state
  taken_over-Survives s old = (refl, refl, refl)

launched :
    {D : Type 0} (k q : Bool) (app : Startup D)
    → k ≡ false
    → q ≡ false
    → (if k then default_key_in_production else if q then sandbox_in_public else app) ≡ app
launched k q app e f = rw e (rw f refl)

module _ {F D : Type 0} ⦃n : Numeric D⦄ (c : Columns D) where
  stored_lem :
      (st : Settings F D) (requested : TradingMode) (holidays : List ℕ) (db : Database F D)
      (old : OrderService D)
      → ReadsBack c.texts
      → has_text st.database_url ≡ true
      → breaker_config st ≡ old.circuit_breaker.config
      → load_engine_state db ≡ some (old.kill_switch, dump_state c.texts old.circuit_breaker)
      → stored_service c st requested holidays db
        ≡ some (taken_over c.texts (new_service st requested holidays) old)
  unfolding new_service fresh
  stored_lem st requested holidays db old b url same saved = rw url (
      ap (restore_service c.texts (new_service st requested holidays)) saved
      ∙ restored c.texts (new_service st requested holidays) old b refl same)

  -- If a database is configured, no check refuses the start, the texts read back, and the
  -- database holds what was saved of the switch and the breaker of an old service with the
  -- configured limits, then the server starts, with the switch of the old service and a
  -- breaker that is tripped exactly if the old one was, and whose state is the same.
  pub lifespan-Survives :
      (st : Settings F D) (requested : TradingMode) (holidays : List ℕ) (db : Database F D)
      (old : OrderService D)
      → ReadsBack c.texts
      → has_text st.database_url ≡ true
      → refuses_key st ≡ false
      → refuses_sandbox st ≡ false
      → breaker_config st ≡ old.circuit_breaker.config
      → load_engine_state db ≡ some (old.kill_switch, dump_state c.texts old.circuit_breaker)
      → (a : App D) × (lifespan c st requested holidays db ≡ running a)
        × Survives c.texts old a.service
  unfolding lifespan new_service fresh
  lifespan-Survives st requested holidays db old b url key sand same saved = (
    app_with st requested (taken_over c.texts (new_service st requested holidays) old),
    launched (refuses_key st) (refuses_sandbox st) _ key sand
        ∙ ap (app_of st requested) (stored_lem st requested holidays db old b url same saved),
    taken_over-Survives c.texts (new_service st requested holidays) old,
  )
