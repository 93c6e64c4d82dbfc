-- ===== src/Api/Tick.antt =====
-- One tick of the server (server/app/api/tick.py, execute_tick and _execute_tick_locked). An
-- exception ends the tick with what was written before it; a tick that is running already, here or
-- in another process, is not run again. The advisory lock of the database is a parameter.
pub mod Env
pub mod Fills
pub mod Preparing
pub mod Recording
pub mod Untouched
pub mod Locked
pub mod Days
use auto_trade_stock_demo.Prelude.{
  ℕ, suc, String, Bool, true, false, not, ◌&&◌, Option, none, some, List, [], ◌∷◌, ◌++◌, Dict,
  lookup, keys, sorted_set, Message, Part, ◌==◌, if◌then◌else◌,
}
use auto_trade_stock_demo.Numeric.{Numeric, ◌>◌, dec}
use auto_trade_stock_demo.Clock.{DateTime}
use auto_trade_stock_demo.Core.Settings.{Settings}
use auto_trade_stock_demo.Toss.{Holdings}
use auto_trade_stock_demo.Orders.Models.{OrderResult, TradingMode}
use auto_trade_stock_demo.Orders.Breaker.{tripped}
use auto_trade_stock_demo.Orders.Breaker.Persist.{dump_state}
use auto_trade_stock_demo.Orders.Service.{OrderService}
use auto_trade_stock_demo.Orders.Reconcile.{ReconcileReport}
use auto_trade_stock_demo.Engine.Costs.{Floats}
use auto_trade_stock_demo.Engine.Exits.{ForcedExit, ExitConfig, evaluate_exits}
use auto_trade_stock_demo.Engine.Judge.{
  DecisionProvider, CandidateContext, ResearchNote, deterministic_judge,
}
use auto_trade_stock_demo.Engine.Paper.{PaperPosition, PaperPortfolio, mark_equity}
use auto_trade_stock_demo.Engine.Paper.Synthetic.{to_synthetic_holdings}
use auto_trade_stock_demo.Engine.Pipeline.{TickInputs, TickResult, run_tick}
use auto_trade_stock_demo.Engine.Pipeline.Stages.{Toss}
use auto_trade_stock_demo.Engine.Screener.{ScreenConfig}
use auto_trade_stock_demo.Engine.Universe.{Texts}
use auto_trade_stock_demo.Db.Rows.{Columns, Database, Event}
use auto_trade_stock_demo.Db.Ledger.{Stamped, record_tick, buy_notional_today, trade_date_kst}
use auto_trade_stock_demo.Db.State.{save_engine_state, audit}
use auto_trade_stock_demo.Db.Stats.{upsert_symbol_stats}
use auto_trade_stock_demo.Db.PaperBook.{
  load_paper, save_paper, append_paper_equity, count_trading_days_since,
}
use auto_trade_stock_demo.Api.World.{World, notify}
use auto_trade_stock_demo.Api.Reconciling.{reconcile_and_enforce, is_live}
use auto_trade_stock_demo.Api.Judging.{
  Engine, engine_of, gate_of, regime_config_of, uses_model, language_model,
}
use auto_trade_stock_demo.Api.Tick.Env.{TickEnv, Prepared, PaperSetup}
use auto_trade_stock_demo.Api.Tick.Preparing.{prepare, open_paper, tick_inputs}
use auto_trade_stock_demo.Api.Tick.Recording.{tell_breaker, record_all}

pub data TickOutcome (F D : Type 0) : Type 0 where
  no_credentials failed running_here running_elsewhere : TickOutcome F D
  ticked : TickResult F D → TickOutcome F D

-- `pg_tick_lock` (server/app/db/lock.py): only PostgreSQL has the lock.
unfoldable pub pg_tick_lock : Option String → Bool → Bool
pg_tick_lock none answer = true
pg_tick_lock (some dialect) answer = if dialect == "postgresql" then answer else true

module _ {F D : Type 0} ⦃m : Numeric F⦄ ⦃n : Numeric D⦄ (x : Floats F D) where
  -- After `run_tick`.
  abbrev pub finish :
      TickEnv F D
      → World F D
      → Bool
      → PaperSetup D
      → Option (TickResult F D)
      → World F D × TickOutcome F D
  finish e w before ps none = (w, failed)
  finish e w before ps (some r) =
      let w' = tell_breaker w before in (if e.has_repo then record_all e w' ps r else w', ticked r)

  -- `run_tick` and what follows it.
  unfoldable pub run_prepared :
      TickEnv F D → World F D → Engine → Prepared D → PaperSetup D → World F D × TickOutcome F D
  unfolding tell_breaker record_all
  run_prepared e w g p ps =
      let (s, out) = run_tick x (tick_inputs e w g p ps) w.service in
      finish e (record w { service = s }) (tripped w.service.circuit_breaker) ps out

  abbrev pub with_paper :
      TickEnv F D
      → Engine
      → Prepared D
      → World F D × Option (PaperSetup D)
      → World F D × TickOutcome F D
  with_paper e g p (w, none) = (w, failed)
  with_paper e g p (w, some ps) = run_prepared e w g p ps

  abbrev pub with_prepared :
      TickEnv F D → Engine → World F D × Option (Prepared D) → World F D × TickOutcome F D
  with_prepared e g (w, none) = (w, failed)
  with_prepared e g (w, some p) = with_paper e g p (open_paper e w)

  abbrev pub with_broker :
      TickEnv F D → World F D → Engine → Option (Toss D) → World F D × TickOutcome F D
  with_broker e w g none = (w, no_credentials)
  with_broker e w g (some toss) = with_prepared e g (prepare e w toss)

  -- `_execute_tick_locked`
  unfoldable pub execute_tick_locked : TickEnv F D → World F D → World F D × TickOutcome F D
  unfolding run_prepared
  execute_tick_locked e w = with_broker e w (engine_of e.has_repo w.db e.settings e.now) e.toss

  -- `execute_tick`: `locked` is the lock of this process, `dialect` that of the database, and
  -- `answer` what its advisory lock would say.
  unfoldable pub execute_tick :
      Bool → Option String → Bool → TickEnv F D → World F D → World F D × TickOutcome F D
  unfolding execute_tick_locked pg_tick_lock
  execute_tick locked dialect answer e w =
      let done = execute_tick_locked e w in
      if locked
      then (w, running_here)
      else if pg_tick_lock dialect answer
      then done
      else (w, running_elsewhere)
