-- ===== src/Api/Tick/Preparing.antt =====
-- What a tick does before `run_tick` (server/app/api/tick.py, _execute_tick_locked): the buys of the
-- day, reconciliation, the paper book with its marks, the forced exits, and the arguments.
use auto_trade_stock_demo.Prelude.{
  ℕ, String, Bool, true, false, not, ◌&&◌, Option, none, some, List, [], ◌∷◌, ◌++◌, Dict, lookup,
  keys, sorted_set, ◌==◌, if◌then◌else◌,
}
use auto_trade_stock_demo.Numeric.{Numeric, ◌>◌, dec}
use auto_trade_stock_demo.Clock.{DateTime}
use auto_trade_stock_demo.Toss.{Holdings}
use auto_trade_stock_demo.Orders.Reconcile.{ReconcileReport}
use auto_trade_stock_demo.Engine.Exits.{ForcedExit, evaluate_exits}
use auto_trade_stock_demo.Engine.Judge.{
  DecisionProvider, CandidateContext, ResearchNote, deterministic_judge,
}
use auto_trade_stock_demo.Engine.Paper.{PaperPosition, PaperPortfolio}
use auto_trade_stock_demo.Engine.Paper.Synthetic.{to_synthetic_holdings}
use auto_trade_stock_demo.Engine.Pipeline.{TickInputs}
use auto_trade_stock_demo.Engine.Pipeline.Stages.{Toss}
use auto_trade_stock_demo.Db.Rows.{Database, Event}
use auto_trade_stock_demo.Db.Ledger.{buy_notional_today, trade_date_kst}
use auto_trade_stock_demo.Db.State.{audit}
use auto_trade_stock_demo.Db.PaperBook.{load_paper, save_paper, count_trading_days_since}
use auto_trade_stock_demo.Api.World.{World}
use auto_trade_stock_demo.Api.Reconciling.{reconcile_and_enforce, is_live}
use auto_trade_stock_demo.Api.Judging.{
  Engine, gate_of, regime_config_of, uses_model, language_model,
}
use auto_trade_stock_demo.Api.Tick.Env.{TickEnv, Prepared, PaperSetup}

abbrev first_book : {D : Type 0} ⦃n : Numeric D⦄ → D → PaperPortfolio D
first_book seed = record { cash = seed; positions = []; realized_cum = dec 0; trade_count = 0 }

abbrev regime_symbols : String → List String
regime_symbols s = if s == "" then [] else s ∷ []

abbrev priced_or : {D : Type 0} → Option (Dict D) → Dict D
priced_or none = []
priced_or (some d) = d

abbrev tick_holdings :
    {D : Type 0} ⦃n : Numeric D⦄
    → Option (Holdings D)
    → PaperSetup D
    → Option (PaperPortfolio D)
    → Option (Holdings D)
tick_holdings h ps none = h
tick_holdings h ps (some p) = some (to_synthetic_holdings p ps.marks)

abbrev cash_of : {D : Type 0} → Option (PaperPortfolio D) → Option D
cash_of none = none
cash_of (some p) = some p.cash

module _ {F D : Type 0} ⦃m : Numeric F⦄ ⦃n : Numeric D⦄ where
  abbrev pub reconciled :
      World F D
      → D
      → Holdings D
      → Option (World F D × ReconcileReport D)
      → World F D × Option (Prepared D)
  reconciled w used h none = (w, none)
  reconciled w used h (some (w', r)) =
      (w', some (record { daily_used = used; holdings = some h; report = some r }))

  abbrev pub prepare_with :
      TickEnv F D → World F D → Option D → Option (Holdings D) → World F D × Option (Prepared D)
  prepare_with e w none h = (w, none)
  prepare_with e w (some used) none = (w, none)
  prepare_with e w (some used) (some h) =
      reconciled w used h (reconcile_and_enforce e.columns w true true h e.now e.wall e.mono)

  -- The buys of the day, the holdings and the reconciliation, with a database.
  unfoldable pub prepare : TickEnv F D → World F D → Toss D → World F D × Option (Prepared D)
  prepare e w toss =
      if e.has_repo
      then prepare_with e w (buy_notional_today e.columns w.db (trade_date_kst e.now))
          toss.get_holdings
      else (w, some (record { daily_used = dec 0; holdings = none; report = none }))

  abbrev pub paper_on : TickEnv F D → World F D → Bool
  paper_on e w = e.has_repo && (not (is_live w.service.mode) && (e.settings.paper_seed_krw > dec 0))

  -- The saved book, or a first one with the seed, which is saved and audited.
  abbrev pub opened_book :
      TickEnv F D
      → World F D
      → Option (Option (PaperPortfolio D))
      → World F D × Option (PaperPortfolio D)
  opened_book e w none = (w, none)
  opened_book e w (some (some p)) = (w, some p)
  opened_book e w (some none) =
      let seed = e.settings.paper_seed_krw in
      (
        record w {
          db =
              audit e.columns (save_paper e.columns w.db (first_book seed) (some seed) e.wall)
                "system" "paper_init" (Event.seeded (e.columns.texts.str seed)) e.wall;
        },
        some (first_book seed),
      )

  abbrev marks_of : TickEnv F D → List String → Dict D
  marks_of e [] = []
  marks_of e (s ∷ ss) = priced_or (e.get_prices (s ∷ ss))

  abbrev setup_with : TickEnv F D → PaperPortfolio D → PaperSetup D
  setup_with e p =
      let symbol = e.settings.regime_symbol in
      let marks = marks_of e (sorted_set (keys p.positions ++ regime_symbols symbol)) in
      record {
        book = some p;
        marks = marks;
        benchmark = if symbol == "" then none else lookup symbol marks;
      }

  abbrev pub set_up :
      TickEnv F D → World F D × Option (PaperPortfolio D) → World F D × Option (PaperSetup D)
  set_up e (w, none) = (w, none)
  set_up e (w, some p) = (w, some (setup_with e p))

  -- The paper book in DRY_RUN mode with a database and a seed, or none.
  unfoldable pub open_paper : TickEnv F D → World F D → World F D × Option (PaperSetup D)
  open_paper e w =
      if paper_on e w
      then set_up e (opened_book e w (load_paper e.columns w.db))
      else (w, some (record { book = none; marks = []; benchmark = none }))

  abbrev held_days : Database F D → String → Option DateTime → Dict ℕ → Dict ℕ
  held_days db s none rest = rest
  held_days db s (some t) rest = (s, count_trading_days_since db (trade_date_kst t)) ∷ rest

  unfoldable pub days_held : Database F D → Dict (PaperPosition D) → Dict ℕ
  days_held db [] = []
  days_held db ((s, pos) ∷ rest) = held_days db s pos.opened_at (days_held db rest)

  abbrev exits_in :
      TickEnv F D → Database F D → Dict D → Option (PaperPortfolio D) → List (ForcedExit D)
  exits_in e db marks none = []
  exits_in e db marks (some p) =
      evaluate_exits p.positions marks (days_held db p.positions) (record {
        stop_loss_rate = e.settings.exit_stop_loss_rate;
        time_stop_days = e.settings.exit_time_stop_days;
        enabled = true;
      })

  -- The forced exits, from the paper book.
  unfoldable pub forced_exits_of : TickEnv F D → Database F D → PaperSetup D → List (ForcedExit D)
  unfolding days_held
  forced_exits_of e db ps =
      if e.settings.exit_rules_enabled then exits_in e db ps.marks ps.book else []

  abbrev judge_of : TickEnv F D → Engine → DecisionProvider F D
  judge_of e g = if uses_model g then e.model else deterministic_judge

  abbrev research_of : TickEnv F D → Engine → Option (CandidateContext F D → ResearchNote)
  research_of e Engine.no_key = none
  research_of e Engine.capped = none
  research_of e (language_model false) = some e.research
  research_of e (language_model true) = some e.cached_research

  -- The arguments of `run_tick`; the engine was chosen before anything was written.
  unfoldable pub tick_inputs :
      TickEnv F D → World F D → Engine → Prepared D → PaperSetup D → TickInputs F D
  unfolding forced_exits_of
  tick_inputs e w g p ps = record {
    toss = e.cached;
    texts = e.texts;
    watchlist = e.watch;
    judge = judge_of e g;
    now = e.now;
    research = research_of e g;
    screen_config = e.screen_config;
    research_top_n = some e.settings.research_top_n;
    entry_gate = some (gate_of e.settings);
    daily_buy_used_krw = p.daily_used;
    regime_config = regime_config_of e.settings;
    holdings = tick_holdings p.holdings ps ps.book;
    cash_buying_power_krw = cash_of ps.book;
    max_buy_candidates = some e.settings.judge_top_n;
    forced_exits = forced_exits_of e w.db ps;
    new_id = e.new_id;
  }
