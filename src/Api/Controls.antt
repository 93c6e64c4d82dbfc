-- ===== src/Api/Controls.antt =====
-- The controls of the operator (server/app/api/routes.py): the kill switch, the reset of the
-- breaker, the status, the manual check of the positions and the evaluation of the paper book.
-- `wall` is the time of the database rows.
use auto_trade_stock_demo.Prelude.{
  ℕ, String, Bool, true, false, ◌&&◌, Option, none, some, [], ◌∷◌, ◌≡◌, refl, Part, leb, ltb,
  if◌then◌else◌,
}
use auto_trade_stock_demo.Numeric.{Numeric}
use auto_trade_stock_demo.Clock.{DateTime, astimezone, date, time, weekday, kst}
use auto_trade_stock_demo.Toss.{Holdings}
use auto_trade_stock_demo.Orders.Guardrails.{GuardrailConfig}
use auto_trade_stock_demo.Orders.Breaker.{reset}
use auto_trade_stock_demo.Orders.Breaker.Persist.{dump_state}
use auto_trade_stock_demo.Orders.Service.{OrderService, engage_kill_switch, release_kill_switch}
use auto_trade_stock_demo.Orders.Reconcile.{ReconcileReport}
use auto_trade_stock_demo.Db.Rows.{Columns, Event}
use auto_trade_stock_demo.Db.State.{save_engine_state, load_engine_state, audit}
use auto_trade_stock_demo.Api.World.{World, notify}
use auto_trade_stock_demo.Api.Reconciling.{reconcile_and_enforce}

abbrev switched : {D : Type 0} → Bool → OrderService D → OrderService D
switched true s = engage_kill_switch s
switched false s = release_kill_switch s

module _ {F D : Type 0} (c : Columns D) where
  -- The state of the engine is saved, and the event is audited, if there is a database.
  unfoldable pub save_control : Bool → World F D → String → Event D → ℕ → World F D
  unfolding save_engine_state audit
  save_control false w action payload wall = w
  save_control true w action payload wall = record w {
    db =
        audit c
          (save_engine_state c w.db w.service.kill_switch
            (dump_state c.texts w.service.circuit_breaker) wall)
          "api" action payload wall;
  }

  -- `POST /api/kill-switch`
  unfoldable pub set_kill_switch : Bool → World F D → Bool → ℕ → World F D
  unfolding save_control notify engage_kill_switch release_kill_switch
  set_kill_switch has_repo w engaged wall =
      notify
        (save_control has_repo (record w { service = switched engaged w.service }) "kill_switch"
          (Event.engaged engaged none) wall)
        (Part.lit "킬스위치 "
          ∷ Part.lit (if engaged then "ON — 전 주문 차단" else "OFF — 재개")
          ∷ Part.lit " (수동)"
          ∷ [])

  -- With a database, a switch that the operator sets is the switch of the service and is the
  -- one that a restart reads, with the state of the breaker; the rest of the service stays.
  pub set_kill_switch-load_engine_state :
      (w : World F D) (engaged : Bool) (wall : ℕ)
      → ((set_kill_switch true w engaged wall).service ≡ record w.service { kill_switch = engaged })
        × (load_engine_state (set_kill_switch true w engaged wall).db
            ≡ some (engaged, dump_state c.texts w.service.circuit_breaker))
  unfolding set_kill_switch load_engine_state save_engine_state audit engage_kill_switch
      release_kill_switch
  set_kill_switch-load_engine_state w true wall = (refl, refl)
  set_kill_switch-load_engine_state w false wall = (refl, refl)

module _ {F D : Type 0} ⦃n : Numeric D⦄ (c : Columns D) where
  -- `POST /api/circuit-breaker/reset`
  unfoldable pub reset_breaker : Bool → World F D → ℕ → World F D
  unfolding save_control notify
  reset_breaker has_repo w wall =
      let s = record w.service { circuit_breaker = reset w.service.circuit_breaker } in
      notify
        (save_control c has_repo (record w { service = s }) "circuit_breaker_reset"
          (Event.was_reset w.service.circuit_breaker) wall)
        (Part.lit "서킷브레이커 수동 리셋 — HWM·래치 초기화(다음 틱 재평가)" ∷ [])

  -- `GET /api/reconcile`, with a database: the baseline stays.
  unfoldable pub reconcile_check :
      World F D → Bool → Holdings D → DateTime → ℕ → ℕ → Option (World F D × ReconcileReport D)
  reconcile_check w watched holdings now wall mono =
      reconcile_and_enforce c w watched false holdings now wall mono

-- `market_open_now` of `GET /api/status`, which does not look at the holidays.
unfoldable pub market_open_now : {D : Type 0} → GuardrailConfig D → DateTime → Bool
market_open_now cfg now =
    let local = astimezone now kst in
    ltb (weekday (date local)) 5
    && (leb cfg.market_open (time local) && leb (time local) cfg.market_close)
