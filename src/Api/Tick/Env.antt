-- ===== src/Api/Tick/Env.antt =====
-- What a tick of the server reads.
use auto_trade_stock_demo.Prelude.{ℕ, String, Bool, Option, List, Dict}
use auto_trade_stock_demo.Clock.{DateTime}
use auto_trade_stock_demo.Core.Settings.{Settings}
use auto_trade_stock_demo.Toss.{Holdings}
use auto_trade_stock_demo.Orders.Reconcile.{ReconcileReport}
use auto_trade_stock_demo.Engine.Judge.{DecisionProvider, CandidateContext, ResearchNote}
use auto_trade_stock_demo.Engine.Paper.{PaperPortfolio}
use auto_trade_stock_demo.Engine.Pipeline.Stages.{Toss}
use auto_trade_stock_demo.Engine.Screener.{ScreenConfig}
use auto_trade_stock_demo.Engine.Universe.{Texts}
use auto_trade_stock_demo.Db.Rows.{Columns}

-- What a tick reads: the settings, the broker, the judge and the research, and the times.
pub record TickEnv (F D : Type 0) : Type 0 where
  pub settings : Settings F D
  pub has_repo : Bool
  pub toss : Option (Toss D)
  pub cached : Toss D
  pub get_prices : List String → Option (Dict D)
  pub watch : List String
  pub model : DecisionProvider F D
  pub research : CandidateContext F D → ResearchNote
  pub cached_research : CandidateContext F D → ResearchNote
  pub texts : Texts
  pub screen_config : ScreenConfig F
  pub columns : Columns D
  pub show : F → String
  pub new_id : ℕ → String
  pub created_at : ℕ → DateTime
  pub now : DateTime
  pub wall : ℕ
  pub mono : ℕ

-- What the tick of a server with a database starts from.
pub record Prepared (D : Type 0) : Type 0 where
  pub daily_used : D
  pub holdings : Option (Holdings D)
  pub report : Option (ReconcileReport D)

-- The paper book of a tick, with the marks and the price of the benchmark.
pub record PaperSetup (D : Type 0) : Type 0 where
  pub book : Option (PaperPortfolio D)
  pub marks : Dict D
  pub benchmark : Option D
