-- ===== src/Engine/Pipeline/Decisions/Forced.antt =====
-- A forced exit cannot be overruled.
use auto_trade_stock_demo.Prelude.{
  ℕ, String, true, false, Option, none, some, List, [], ◌∷◌, ◌++◌, map, Dict, contains, keys, ◌≡◌,
  arith, take, drop, zero, suc, sym, ◌∙◌, ap, refl, eq_iff, contains-append,
}
use auto_trade_stock_demo.Numeric.{Numeric}
use auto_trade_stock_demo.Engine.Exits.{ForcedExit}
use auto_trade_stock_demo.Engine.Judge.{
  Action, Decision, CandidateContext, ResearchNote, by_symbol, decide_candidates,
}
use auto_trade_stock_demo.Engine.Pipeline.Decisions.{
  judged, research_candidates, forced_decisions, inject_price, decisions_of, symbols_of, with_note,
}

module _ {F D : Type 0} where
  abbrev Unforced : Dict (ForcedExit D) → List (CandidateContext F D) → Type 0
  Unforced forced [] = Unit
  Unforced forced (c ∷ cs) = (contains (keys forced) c.symbol ≡ false) × Unforced forced cs

  judged-Unforced :
      (forced : Dict (ForcedExit D)) (cs : List (CandidateContext F D))
      → Unforced forced (judged forced cs)
  unfolding judged
  judged-Unforced forced [] = tt
  judged-Unforced forced (c ∷ cs) = ground (arith, judged-Unforced forced cs)

  noted-Unforced :
      (forced : Dict (ForcedExit D)) (provider : CandidateContext F D → ResearchNote)
      (cs : List (CandidateContext F D))
      → Unforced forced cs
      → Unforced forced (map (with_note provider) cs)
  noted-Unforced forced provider [] h = tt
  noted-Unforced forced provider (c ∷ cs) (p, h) = (p, noted-Unforced forced provider cs h)

  split-Unforced :
      (forced : Dict (ForcedExit D)) (provider : CandidateContext F D → ResearchNote) (k : ℕ)
      (cs : List (CandidateContext F D))
      → Unforced forced cs
      → Unforced forced (map (with_note provider) (take k cs) ++ drop k cs)
  unfolding take drop
  split-Unforced forced provider zero cs h = h
  split-Unforced forced provider (suc k) [] h = tt
  split-Unforced forced provider (suc k) (c ∷ cs) (p, h) =
      (p, split-Unforced forced provider k cs h)

  research-Unforced :
      (forced : Dict (ForcedExit D)) (research : Option (CandidateContext F D → ResearchNote))
      (top_n : Option ℕ) (cs : List (CandidateContext F D))
      → Unforced forced cs
      → Unforced forced (research_candidates research top_n cs)
  unfolding research_candidates
  research-Unforced forced none top_n cs h = h
  research-Unforced forced (some provider) none cs h = noted-Unforced forced provider cs h
  research-Unforced forced (some provider) (some k) cs h = split-Unforced forced provider k cs h

  -- Every decision on a symbol that has to leave sells it.
  abbrev pub ForcedSells : Dict (ForcedExit D) → List (Decision F D) → Type 0
  ForcedSells forced [] = Unit
  ForcedSells forced (d ∷ ds) =
      (contains (keys forced) d.symbol ≡ true → d.action ≡ Action.sell) × ForcedSells forced ds

  ForcedSells-append :
      (forced : Dict (ForcedExit D)) (ds es : List (Decision F D))
      → ForcedSells forced ds
      → ForcedSells forced es
      → ForcedSells forced (ds ++ es)
  ForcedSells-append forced [] es h k = k
  ForcedSells-append forced (d ∷ ds) es (p, h) k = (p, ForcedSells-append forced ds es h k)

  judge-ForcedSells :
      (forced : Dict (ForcedExit D)) (judge : CandidateContext F D → Decision F D)
      (cs : List (CandidateContext F D))
      → ((c : CandidateContext F D) → (judge c).symbol ≡ c.symbol)
      → Unforced forced cs
      → ForcedSells forced (map judge cs)
  judge-ForcedSells forced judge [] own h = tt
  judge-ForcedSells forced judge (c ∷ cs) own (p, h) =
      let e = own c in (ground arith, judge-ForcedSells forced judge cs own h)

  inject_price_keeps :
      (contexts : Dict (CandidateContext F D)) (d : Decision F D)
      → ((inject_price contexts d).symbol ≡ d.symbol)
        × ((inject_price contexts d).action ≡ d.action)
  unfolding inject_price
  inject_price_keeps contexts d = ground arith

  inject-ForcedSells :
      (forced : Dict (ForcedExit D)) (contexts : Dict (CandidateContext F D))
      (ds : List (Decision F D))
      → ForcedSells forced ds
      → ForcedSells forced (map (inject_price contexts) ds)
  inject-ForcedSells forced contexts [] h = tt
  inject-ForcedSells forced contexts (d ∷ ds) (p, h) =
      let (e, a) = inject_price_keeps contexts d in
      (
        λ k. a ∙ p (ap (contains (keys forced)) (sym e) ∙ k),
        inject-ForcedSells forced contexts ds h,
      )

  abbrev pub decided : List (Decision F D) → List String
  decided ds = map (λ (d : Decision F D). d.symbol) ds

  decided-inject :
      (contexts : Dict (CandidateContext F D)) (ds : List (Decision F D))
      → decided (map (inject_price contexts) ds) ≡ decided ds
  decided-inject contexts [] = refl
  decided-inject contexts (d ∷ ds) =
      rw ((inject_price_keeps contexts d).0) (ap (λ ss. d.symbol ∷ ss) (decided-inject contexts ds))

  decided-append : (ds es : List (Decision F D)) → decided (ds ++ es) ≡ decided ds ++ decided es
  decided-append [] es = refl
  decided-append (d ∷ ds) es = ap (λ ss. d.symbol ∷ ss) (decided-append ds es)

-- Each exit is kept under its own symbol.
abbrev pub IsKeyed : {D : Type 0} → Dict (ForcedExit D) → Type 0
IsKeyed [] = Unit
IsKeyed ((s, f) ∷ rest) = (f.symbol ≡ s) × IsKeyed rest

module _ {D : Type 0} (F : Type 0) ⦃m : Numeric F⦄ where
  forced-ForcedSells :
      (all forced : Dict (ForcedExit D)) (symbols : List String)
      → ForcedSells {F = F} all (forced_decisions forced symbols)
  unfolding forced_decisions
  forced-ForcedSells all [] symbols = tt
  forced-ForcedSells all ((s, f) ∷ rest) symbols =
      ground (arith, forced-ForcedSells all rest symbols)

  forced_decided :
      (forced : Dict (ForcedExit D)) (symbols : List String) (s : String)
      → IsKeyed forced
      → contains (keys forced) s ≡ true
      → contains symbols s ≡ true
      → contains (decided {F = F} (forced_decisions forced symbols)) s ≡ true
  unfolding forced_decisions contains keys
  forced_decided [] symbols s w h k = ground arith
  forced_decided ((t, f) ∷ rest) symbols s (e, w) h k =
      ground (arith, eq_iff t s, eq_iff f.symbol s, forced_decided rest symbols s w)

module _ {F D : Type 0} ⦃m : Numeric F⦄ where
  -- Where each forced exit is kept under its own symbol and the judge answers about the
  -- candidate that it is shown, a symbol that has to leave and is a candidate is decided on,
  -- and every decision on a symbol that has to leave is to sell.
  pub decisions_of-ForcedSells :
      (forced : Dict (ForcedExit D)) (candidates : List (CandidateContext F D))
      (research : Option (CandidateContext F D → ResearchNote)) (top_n : Option ℕ)
      (judge : CandidateContext F D → Decision F D)
      → IsKeyed forced
      → ((c : CandidateContext F D) → (judge c).symbol ≡ c.symbol)
      → ForcedSells forced (decisions_of forced candidates research top_n judge)
        × ((s : String)
            → contains (keys forced) s ≡ true
            → contains (symbols_of candidates) s ≡ true
            → contains (decided (decisions_of forced candidates research top_n judge)) s ≡ true)
  unfolding decisions_of decide_candidates
  decisions_of-ForcedSells forced candidates research top_n judge w own =
      let exits : List (Decision F D) = forced_decisions forced (symbols_of candidates) in
      let shown = research_candidates research top_n (judged forced candidates) in
      (
        inject-ForcedSells forced _ (exits ++ map judge shown) (
            ForcedSells-append forced exits (map judge shown)
              (forced-ForcedSells F forced forced (symbols_of candidates))
              (judge-ForcedSells forced judge shown own
                (research-Unforced forced research top_n _ (judged-Unforced forced candidates)))),
        λ s h k.
            rw
              (decided-inject (by_symbol (λ (c : CandidateContext F D). c.symbol) candidates [])
                (exits ++ map judge shown))
              (rw (decided-append exits (map judge shown)) (
                rw (contains-append (decided exits) (decided (map judge shown)) s)
                  (rw (forced_decided F forced (symbols_of candidates) s w h k) refl))),
      )
