-- ===== src/Api/Startup/Modes.antt =====
-- When the server starts, and when it starts in LIVE mode.
use auto_trade_stock_demo.Prelude.{
  ℕ, Bool, true, false, Option, none, some, List, ◌≡◌, refl, sym, ◌∙◌, arith, if◌then◌else◌,
}
use auto_trade_stock_demo.Numeric.{Numeric}
use auto_trade_stock_demo.Core.Settings.{Settings}
use auto_trade_stock_demo.Orders.Models.{TradingMode}
use auto_trade_stock_demo.Orders.Service.{OrderService}
use auto_trade_stock_demo.Db.Rows.{Columns, Database}
use auto_trade_stock_demo.Db.Ledger.{has_text}
use auto_trade_stock_demo.Db.State.{load_engine_state}
use auto_trade_stock_demo.Api.Startup.{
  Startup, running, default_key_in_production, sandbox_in_public, App, lifespan, effective_mode,
  refuses_key, refuses_sandbox, app_of, restore_service, new_service,
}

-- The service of a server that runs is in LIVE mode.
abbrev pub RunsLive : {D : Type 0} → Startup D → Type 0
RunsLive {D = D} out = (a : App D) × (out ≡ running a) × (a.service.mode ≡ TradingMode.live)

-- No check refused a server that runs.
pub started :
    {D : Type 0} (k q : Bool) (app : Startup D) (a : App D)
    → (if k then default_key_in_production else if q then sandbox_in_public else app) ≡ running a
    → (k ≡ false) × (q ≡ false) × (app ≡ running a)
started true q app a e = cc
started false true app a e = cc
started false false app a e = (refl, refl, e)

module _ {F D : Type 0} ⦃n : Numeric D⦄ (c : Columns D) where
  -- What the database makes of the service.
  abbrev pub stored_service :
      Settings F D → TradingMode → List ℕ → Database F D → Option (OrderService D)
  stored_service st requested holidays db =
      if has_text st.database_url
      then restore_service c.texts (new_service st requested holidays) (load_engine_state db)
      else some (new_service st requested holidays)

  live_only :
      (st : Settings F D) (requested : TradingMode)
      → effective_mode st requested ≡ TradingMode.live
      → (requested ≡ TradingMode.live)
        × (has_text st.database_url ≡ true)
        × (st.sandbox_mode ≡ false)
  unfolding effective_mode
  live_only st TradingMode.live h = ground arith
  live_only st TradingMode.dry_run h = cc

  app_live :
      (st : Settings F D) (requested : TradingMode) (o : Option (OrderService D)) (a : App D)
      → app_of st requested o ≡ running a
      → a.service.mode ≡ effective_mode st requested
  app_live st requested none a e = ground arith
  app_live st requested (some s) a e = ground arith

  -- A server that runs in LIVE mode was asked for LIVE mode, has a database, is no sandbox,
  -- and in production does not have the default key.
  pub lifespan-RunsLive :
      (st : Settings F D) (requested : TradingMode) (holidays : List ℕ) (db : Database F D)
      → RunsLive (lifespan c st requested holidays db)
      → (requested ≡ TradingMode.live)
        × (has_text st.database_url ≡ true)
        × (st.sandbox_mode ≡ false)
        × (refuses_key st ≡ false)
  unfolding lifespan
  lifespan-RunsLive st requested holidays db (a, e, live) =
      let (k, q, up) =
        started (refuses_key st) (refuses_sandbox st)
          (app_of st requested (stored_service st requested holidays db)) a e in
      let (asked, stored, real) =
        live_only st requested
          (sym (app_live st requested (stored_service st requested holidays db) a up) ∙ live) in
      (asked, stored, real, k)
