-- ===== src/Api/Tick/Recording.antt =====
-- What a tick does after `run_tick` (server/app/api/tick.py, _execute_tick_locked): the alert on the
-- breaker, the record of the tick, and the simulated fills.
use auto_trade_stock_demo.Prelude.{
  ℕ, suc, Bool, true, false, not, Option, none, some, List, [], ◌∷◌, Message, Part, if◌then◌else◌,
}
use auto_trade_stock_demo.Numeric.{Numeric}
use auto_trade_stock_demo.Clock.{DateTime}
use auto_trade_stock_demo.Orders.Models.{OrderResult}
use auto_trade_stock_demo.Orders.Breaker.{tripped}
use auto_trade_stock_demo.Orders.Breaker.Persist.{dump_state}
use auto_trade_stock_demo.Engine.Paper.{PaperPortfolio, mark_equity}
use auto_trade_stock_demo.Engine.Pipeline.{TickResult}
use auto_trade_stock_demo.Db.Rows.{Database}
use auto_trade_stock_demo.Db.Ledger.{Stamped, record_tick, trade_date_kst}
use auto_trade_stock_demo.Db.State.{save_engine_state}
use auto_trade_stock_demo.Db.Stats.{upsert_symbol_stats}
use auto_trade_stock_demo.Db.PaperBook.{save_paper, append_paper_equity}
use auto_trade_stock_demo.Api.World.{World, notify}
use auto_trade_stock_demo.Api.Judging.{gate_of}
use auto_trade_stock_demo.Api.Tick.Env.{TickEnv, PaperSetup}
use auto_trade_stock_demo.Api.Tick.Fills.{fill_orders}

-- The results with the times of their creation.
unfoldable pub stamped : {D : Type 0} → (ℕ → DateTime) → ℕ → List (OrderResult D) → List (Stamped D)
stamped at k [] = []
stamped at k (r ∷ rs) = record { result = r; created_at = at k } ∷ stamped at (suc k) rs

abbrev was_told : Bool → Bool → Bool
was_told true b = not b
was_told false b = b

abbrev breaker_text : {D : Type 0} → Bool → Message D → Message D
breaker_text now_tripped reason =
    Part.lit "⚠ 서킷브레이커 "
    ∷ Part.lit (if now_tripped then "발동" else "해제")
    ∷ Part.lit ": "
    ∷ (elim reason [ [] ↦ Part.lit "낙폭 회복" ∷ [] | p ∷ ps ↦ p ∷ ps ])

module _ {F D : Type 0} ⦃m : Numeric F⦄ ⦃n : Numeric D⦄ where
  -- A change of the breaker is told.
  unfoldable pub tell_breaker : World F D → Bool → World F D
  unfolding notify
  tell_breaker w before =
      let after = tripped w.service.circuit_breaker in
      if was_told after before
      then notify w (breaker_text after w.service.circuit_breaker.reason)
      else w

  abbrev pub keep_book :
      TickEnv F D
      → Database F D
      → PaperSetup D
      → TickResult F D
      → Option (PaperPortfolio D)
      → Database F D
  keep_book e db ps r none = db
  keep_book e db ps r (some p) =
      let (p', marks) = fill_orders (gate_of e.settings).cost e.now r.orders p ps.marks in
      let (equity, value) = mark_equity p' marks in
      append_paper_equity e.columns (save_paper e.columns db p' none e.wall) e.now equity p'.cash
        value p'.realized_cum ps.benchmark

  -- The tick, its decisions and orders, the state of the engine, the statistics and the paper book.
  unfoldable pub record_all : TickEnv F D → World F D → PaperSetup D → TickResult F D → World F D
  record_all e w ps r =
      let (db, id) = record_tick e.columns e.show w.db r (stamped e.created_at 0 r.orders) e.now in
      let saved =
        save_engine_state e.columns db w.service.kill_switch
          (dump_state e.columns.texts w.service.circuit_breaker) e.wall in
      record w {
        db = keep_book e (upsert_symbol_stats saved r.adv20 (trade_date_kst e.now)) ps r ps.book;
      }
