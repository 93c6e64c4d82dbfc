-- ===== src/Engine/Pipeline/Decisions.antt =====
-- Steps 7 and 8 of `run_tick`: the forced exits are decided first and past the judge, who sees the
-- other candidates only.
pub mod Forced
use auto_trade_stock_demo.Prelude.{
  ℕ, String, Bool, true, false, not, Option, none, some, List, [], ◌∷◌, ◌++◌, map, Dict, lookup,
  contains, keys, Message, Part, if◌then◌else◌, take, drop,
}
use auto_trade_stock_demo.Numeric.{Numeric, dec}
use auto_trade_stock_demo.Engine.Exits.{ForcedExit}
use auto_trade_stock_demo.Engine.Screener.{ScreenIndicators}
use auto_trade_stock_demo.Engine.Judge.{
  Action, Decision, CandidateContext, DecisionProvider, ResearchNote, by_symbol, decide_candidates,
}

module _ {F D : Type 0} where
  -- `[c for c in candidates if c.symbol not in forced]`
  unfoldable pub judged :
      Dict (ForcedExit D) → List (CandidateContext F D) → List (CandidateContext F D)
  judged forced [] = []
  judged forced (c ∷ cs) =
      let rest = judged forced cs in if contains (keys forced) c.symbol then rest else c ∷ rest

  abbrev pub symbols_of : List (CandidateContext F D) → List String
  symbols_of cs = map (λ (c : CandidateContext F D). c.symbol) cs

  abbrev pub with_note :
      (CandidateContext F D → ResearchNote) → CandidateContext F D → CandidateContext F D
  with_note provider c = record c { research = some (provider c) }

  -- `research_candidates(candidates, provider, top_n)` (server/app/engine/research.py)
  unfoldable pub research_candidates :
      Option (CandidateContext F D → ResearchNote)
      → Option ℕ
      → List (CandidateContext F D)
      → List (CandidateContext F D)
  research_candidates none top_n cs = cs
  research_candidates (some provider) none cs = map (with_note provider) cs
  research_candidates (some provider) (some k) cs =
      map (with_note provider) (take k cs) ++ drop k cs

  abbrev with_price : Option (ScreenIndicators F) → Decision F D → Decision F D
  with_price none d = d
  with_price (some ind) d = record d { decision_price = some ind.last_close }

  abbrev priced_from : Option (CandidateContext F D) → Decision F D → Decision F D
  priced_from none d = d
  priced_from (some c) d = with_price c.indicators d

  -- The last close, for a decision that has no price of its own.
  unfoldable pub inject_price : Dict (CandidateContext F D) → Decision F D → Decision F D
  inject_price contexts d = elim (d.decision_price) [
    | none ↦ priced_from (lookup d.symbol contexts) d
    | some p ↦ d
  ]

module _ {F D : Type 0} ⦃m : Numeric F⦄ where
  abbrev pub forced_decision : ForcedExit D → Decision F D
  forced_decision f = record {
    action = Action.sell;
    symbol = f.symbol;
    confidence = dec 1;
    rationale = Part.lit "결정적 청산: " ∷ f.reason;
    decision_price = none;
  }

  -- The exits whose symbol is a candidate.
  unfoldable pub forced_decisions : Dict (ForcedExit D) → List String → List (Decision F D)
  forced_decisions [] symbols = []
  forced_decisions ((s, f) ∷ rest) symbols =
      let others = forced_decisions rest symbols in
      if contains symbols f.symbol then forced_decision f ∷ others else others

  unfoldable pub decisions_of :
      Dict (ForcedExit D)
      → List (CandidateContext F D)
      → Option (CandidateContext F D → ResearchNote)
      → Option ℕ
      → DecisionProvider F D
      → List (Decision F D)
  unfolding judged research_candidates forced_decisions inject_price
  decisions_of forced candidates research top_n judge =
      map (inject_price (by_symbol (λ (c : CandidateContext F D). c.symbol) candidates [])) (
        forced_decisions forced (symbols_of candidates)
        ++ decide_candidates (research_candidates research top_n (judged forced candidates)) judge
            none)
