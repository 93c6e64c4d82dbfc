-- ===== src/Engine/Pipeline.antt =====
-- The trading tick (server/app/engine/pipeline.py). The stages are the child modules Stages,
-- Decisions and Sizing, and `run_tick` composes them. The broker is an interface: `none` stands for
-- an exception of a call, and the tick then ends without a result.
pub mod Stages
pub mod Decisions
pub mod Sizing
pub mod Invariants
pub mod Cap
pub mod Ticks
pub mod Budget
use auto_trade_stock_demo.Prelude.{
  ℕ, String, Bool, true, false, Option, none, some, List, [], ◌∷◌, ◌++◌, Dict, sorted_set, length,
  Message, Part, if◌then◌else◌,
}
use auto_trade_stock_demo.Numeric.{Numeric, ◌+◌, dec, or_zero}
use auto_trade_stock_demo.Clock.{DateTime}
use auto_trade_stock_demo.Toss.{Stock, Holdings}
use auto_trade_stock_demo.Orders.Models.{OrderResult, TradingMode}
use auto_trade_stock_demo.Orders.Guardrails.{GuardrailContext}
use auto_trade_stock_demo.Orders.Breaker.{CircuitBreaker, tripped}
use auto_trade_stock_demo.Orders.Context.{context_from_holdings}
use auto_trade_stock_demo.Orders.Service.{OrderService, assess_circuit_breaker}
use auto_trade_stock_demo.Engine.Costs.{Floats, EntryGate}
use auto_trade_stock_demo.Engine.Exits.{ForcedExit}
use auto_trade_stock_demo.Engine.Regime.{RegimeAssessment, RegimeConfig}
use auto_trade_stock_demo.Engine.Screener.{ScreenConfig, ScreenResult}
use auto_trade_stock_demo.Engine.Universe.{Texts}
use auto_trade_stock_demo.Engine.Judge.{
  CandidateContext, Decision, DecisionProvider, ResearchNote, by_symbol, unique, candidate_contexts,
}
use Stages.{
  Toss, Screening, no_screening, held_symbols, eligible_symbols, screen_all, reduce_buys,
  split_warned, regime_of, level_name, and_then,
}
use Decisions.{decisions_of}
use Sizing.{SizingState, SizingInputs, size_all}

pub record TickInputs (F D : Type 0) : Type 0 where
  pub toss : Toss D
  pub texts : Texts
  pub watchlist : List String
  pub judge : DecisionProvider F D
  pub now : DateTime
  pub research : Option (CandidateContext F D → ResearchNote)
  pub screen_config : ScreenConfig F
  pub research_top_n : Option ℕ
  pub entry_gate : Option (EntryGate D)
  pub daily_buy_used_krw : D
  pub regime_config : Option (RegimeConfig D)
  pub holdings : Option (Holdings D)
  pub cash_buying_power_krw : Option D
  pub max_buy_candidates : Option ℕ
  pub forced_exits : List (ForcedExit D)
  pub new_id : ℕ → String

pub record TickResult (F D : Type 0) : Type 0 where
  pub mode : TradingMode
  pub kill_switch : Bool
  pub universe_symbols : List String
  pub candidates : ℕ
  pub decisions : List (Decision F D)
  pub orders : List (OrderResult D)
  pub note : String
  pub circuit_breaker : Bool
  pub circuit_breaker_reason : Message D
  pub cost_gated : List String
  pub regime : Option (RegimeAssessment D)
  pub forced_exits : Dict (ForcedExit D)
  pub adv20 : Dict F
  pub warned : List String

abbrev pub given_or {ℓ} : {A : Type ℓ} → Option A → Option A → Option A
given_or none b = b
given_or (some a) b = some a

abbrev pub if_completed {ℓ} : {A : Type ℓ} → Bool → A → Option A
if_completed true a = some a
if_completed false a = none

module _ {F D : Type 0} ⦃m : Numeric F⦄ ⦃n : Numeric D⦄ (x : Floats F D) where
  -- The forced exits by symbol.
  abbrev pub forced_of : TickInputs F D → Dict (ForcedExit D)
  forced_of inp = by_symbol (λ f. f.symbol) inp.forced_exits []

  abbrev nothing_to_do : TickInputs F D → OrderService D → TickResult F D
  nothing_to_do inp s = record {
    mode = s.mode;
    kill_switch = s.kill_switch;
    universe_symbols = [];
    candidates = 0;
    decisions = [];
    orders = [];
    note = "평가할 심볼 없음(워치리스트·보유 비어있음)";
    circuit_breaker = tripped s.circuit_breaker;
    circuit_breaker_reason = s.circuit_breaker.reason;
    cost_gated = [];
    regime = none;
    forced_exits = forced_of inp;
    adv20 = [];
    warned = [];
  }

  abbrev equity_of : Option D → Holdings D → Option D
  equity_of none h = none
  equity_of (some cash) h = some (cash + h.market_value_krw)

  -- The denominator of the weight limit: the positions, and the cash where it is known.
  abbrev with_cash : Option D → GuardrailContext D → GuardrailContext D
  with_cash none ctx = ctx
  with_cash (some cash) ctx = record ctx {
    portfolio_value_krw = some (or_zero ctx.portfolio_value_krw + cash);
  }

  abbrev multiplier_of : Option (RegimeAssessment D) → D
  multiplier_of none = dec 1
  multiplier_of (some r) = r.multiplier

  abbrev assessed_regime : TickInputs F D → Option (RegimeConfig D) → Option (RegimeAssessment D)
  assessed_regime inp none = none
  assessed_regime inp (some cfg) = some (regime_of x inp.toss cfg)

  -- `c.market_regime = f"{level} — {reason}"`
  abbrev with_regime :
      Option (RegimeAssessment D) → List (CandidateContext F D) → List (CandidateContext F D)
  with_regime none cs = cs
  with_regime (some r) [] = []
  with_regime (some r) (c ∷ cs) =
      record c { market_regime = some (Part.lit (level_name r.level) ∷ Part.lit " — " ∷ r.reason) }
      ∷ with_regime (some r) cs

  -- What the loop over the decisions reads.
  abbrev pub inputs_of :
      TickInputs F D
      → OrderService D
      → Holdings D
      → Option D
      → List (CandidateContext F D)
      → Option (RegimeAssessment D)
      → SizingInputs F D
  inputs_of inp s h cash cs regime = record {
    contexts = by_symbol (λ (c : CandidateContext F D). c.symbol) cs [];
    base = with_cash cash (context_from_holdings h inp.now s.kill_switch (dec 0) (dec 0));
    entry_gate = inp.entry_gate;
    multiplier = multiplier_of regime;
    new_id = inp.new_id;
  }

  abbrev pub start_of : TickInputs F D → OrderService D → SizingState D
  start_of inp s = record {
    service = s;
    daily_used = inp.daily_buy_used_krw;
    orders = [];
    cost_gated = [];
  }

  abbrev tick_result :
      TickInputs F D
      → OrderService D
      → List String
      → Screening F
      → List String
      → ℕ
      → List (Decision F D)
      → Option (RegimeAssessment D)
      → String
      → SizingState D
      → TickResult F D
  tick_result inp s eligible screening warned count decisions regime note st = record {
    mode = s.mode;
    kill_switch = s.kill_switch;
    universe_symbols = sorted_set eligible;
    candidates = count;
    decisions = decisions;
    orders = st.orders;
    note = note;
    circuit_breaker = tripped s.circuit_breaker;
    circuit_breaker_reason = s.circuit_breaker.reason;
    cost_gated = st.cost_gated;
    regime = regime;
    forced_exits = forced_of inp;
    adv20 = screening.adv20;
    warned = warned;
  }

  -- Steps 6 to 9, from the candidates on.
  unfoldable pub trade :
      TickInputs F D
      → OrderService D
      → Holdings D
      → Option D
      → List String
      → Screening F
      → List String
      → List (CandidateContext F D)
      → OrderService D × Option (TickResult F D)
  trade inp s h cash eligible screening warned [] =
      (s, some (tick_result inp s eligible screening warned 0 [] none "후보 없음" (start_of inp s)))
  trade inp s h cash eligible screening warned (c ∷ cs) =
      let regime = assessed_regime inp inp.regime_config in
      let candidates = with_regime regime (c ∷ cs) in
      let decisions =
        decisions_of (forced_of inp) candidates inp.research inp.research_top_n inp.judge in
      let (st, completed) =
        size_all x (inputs_of inp s h cash candidates regime) (start_of inp s) decisions in
      (
        st.service,
        if_completed completed (
            tick_result inp s eligible screening warned (length candidates) decisions regime "" st),
      )

  -- Steps 4b to 9, from the screening on.
  unfoldable pub after_screening :
      TickInputs F D
      → OrderService D
      → Holdings D
      → Dict (Stock D)
      → List String
      → Option (Screening F)
      → OrderService D × Option (TickResult F D)
  unfolding trade
  after_screening inp s h stocks eligible none = (s, none)
  after_screening inp s h stocks eligible (some screening) =
      let (kept, warned) =
        split_warned inp.toss (reduce_buys inp.max_buy_candidates screening.buy_results) in
      let cash = given_or inp.cash_buying_power_krw inp.toss.get_buying_power in
      let (s', halted) = assess_circuit_breaker s (equity_of cash h) h.daily_rate inp.now in
      trade inp s' h cash eligible screening warned
        (candidate_contexts kept stocks (some h) screening.holding_indicators screening.recent cash)

  -- Steps 3 to 9, from the stock master on.
  unfoldable pub after_master :
      TickInputs F D
      → OrderService D
      → Holdings D
      → List String
      → Option (List (Stock D))
      → OrderService D × Option (TickResult F D)
  unfolding after_screening
  after_master inp s h symbols none = (s, none)
  after_master inp s h symbols (some stocks) =
      let master = by_symbol (λ (k : Stock D). k.symbol) stocks [] in
      let held = held_symbols h in
      let eligible = eligible_symbols inp.texts master symbols held in
      after_screening inp s h master eligible
        (screen_all x inp.toss inp.screen_config eligible held symbols no_screening)

  -- Steps 2 to 9, from the symbols on.
  unfoldable pub after_symbols :
      TickInputs F D
      → OrderService D
      → Holdings D
      → List String
      → OrderService D × Option (TickResult F D)
  unfolding after_master
  after_symbols inp s h [] = (s, some (nothing_to_do inp s))
  after_symbols inp s h (y ∷ ys) = after_master inp s h (y ∷ ys) (inp.toss.get_stocks (y ∷ ys))

  abbrev pub with_holdings :
      TickInputs F D
      → OrderService D
      → Option (Holdings D)
      → OrderService D × Option (TickResult F D)
  with_holdings inp s none = (s, none)
  with_holdings inp s (some h) = after_symbols inp s h (unique (inp.watchlist ++ held_symbols h) [])

  unfoldable pub run_tick :
      TickInputs F D → OrderService D → OrderService D × Option (TickResult F D)
  unfolding after_symbols
  run_tick inp s = with_holdings inp s (given_or inp.holdings inp.toss.get_holdings)
