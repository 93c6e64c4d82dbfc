-- ===== src/Engine/Pipeline/Ticks.antt =====
-- What a whole tick keeps.
use auto_trade_stock_demo.Prelude.{
  String, true, Option, none, some, List, [], ◌∷◌, Dict, ◌≡◌, inl, inr, refl, arith, ◌∙◌,
}
use auto_trade_stock_demo.Numeric.{Numeric}
use auto_trade_stock_demo.Toss.{Stock, Holdings}
use auto_trade_stock_demo.Orders.Models.{OrderRequest, TradingMode}
use auto_trade_stock_demo.Orders.Guardrails.{GuardrailContext}
use auto_trade_stock_demo.Orders.Service.{OrderService, submit, effective, assess_circuit_breaker}
use auto_trade_stock_demo.Orders.Guardrails.Admission.{Admitted}
use auto_trade_stock_demo.Clock.{DateTime}
use auto_trade_stock_demo.Orders.Service.Submit.{submit-Places, submit_keeps}
use auto_trade_stock_demo.Engine.Costs.{Floats}
use auto_trade_stock_demo.Engine.Judge.{CandidateContext}
use auto_trade_stock_demo.Engine.Pipeline.{
  TickInputs, run_tick, after_symbols, after_master, after_screening, trade, with_holdings,
  start_of,
}
use auto_trade_stock_demo.Engine.Pipeline.Stages.{Screening}
use auto_trade_stock_demo.Engine.Pipeline.Sizing.{book}
use auto_trade_stock_demo.Engine.Pipeline.Invariants.{KeptByBook, size_all_keeps}

-- What a submission and an assessment of the breaker keep, a tick keeps.
module _ {D : Type 0} ⦃n : Numeric D⦄ where
  -- In DRY_RUN mode with nothing placed.
  abbrev pub Unsent : List (OrderRequest D) → OrderService D → Type 0
  Unsent placed s = (s.mode ≡ TradingMode.dry_run) × (s.placed ≡ placed)

  submit-Unsent :
      (placed : List (OrderRequest D)) (s : OrderService D) (o : OrderRequest D)
      (ctx : GuardrailContext D)
      → Unsent placed s
      → Unsent placed (submit s o ctx).0
  submit-Unsent placed s o ctx (dry, e) = (
    (submit_keeps s o ctx).0 ∙ dry,
    elim (submit-Places s o ctx) [ inl same ↦ same ∙ e | inr added ↦ ground arith ],
  )

  -- Under the kill switch with nothing placed.
  abbrev pub Halted : List (OrderRequest D) → OrderService D → Type 0
  Halted placed s = (s.kill_switch ≡ true) × (s.placed ≡ placed)

  killed_refused :
      (s : OrderService D) (o : OrderRequest D) (ctx : GuardrailContext D)
      → s.kill_switch ≡ true
      → ¬ Admitted o (effective s ctx) s.config
  unfolding effective
  killed_refused s o ctx k a = let off = a.no_kill in ground arith

  submit-Halted :
      (placed : List (OrderRequest D)) (s : OrderService D) (o : OrderRequest D)
      (ctx : GuardrailContext D)
      → Halted placed s
      → Halted placed (submit s o ctx).0
  submit-Halted placed s o ctx (k, e) = (
    (submit_keeps s o ctx).1 ∙ k,
    elim (submit-Places s o ctx) [
      | inl same ↦ same ∙ e
      | inr (added, live, fresh, a) ↦ absurd (killed_refused s o ctx k a)
    ],
  )

module _ {F D : Type 0} ⦃m : Numeric F⦄ ⦃n : Numeric D⦄ (x : Floats F D)
    (P : OrderService D → Type 0)
    (kept_submit : (s : OrderService D) (o : OrderRequest D) (ctx : GuardrailContext D)
      → P s
      → P (submit s o ctx).0)
    (kept_assess : (s : OrderService D) (equity rate : Option D) (now : DateTime)
      → P s
      → P (assess_circuit_breaker s equity rate now).0) where
  book_keeps : KeptByBook {D = D} (λ st. P st.service)
  unfolding book
  book_keeps st req ctx e p = kept_submit st.service req ctx p

  trade_keeps :
      (inp : TickInputs F D) (s : OrderService D) (h : Holdings D) (cash : Option D)
      (eligible : List String) (screening : Screening F) (warned : List String)
      (cs : List (CandidateContext F D))
      → P s
      → P (trade x inp s h cash eligible screening warned cs).0
  unfolding trade
  trade_keeps inp s h cash eligible screening warned [] p = p
  trade_keeps inp s h cash eligible screening warned (c ∷ cs) p =
      size_all_keeps x (λ st. P st.service) (λ st gated q. q) book_keeps _ (start_of x inp s) _ p

  after_screening_keeps :
      (inp : TickInputs F D) (s : OrderService D) (h : Holdings D) (stocks : Dict (Stock D))
      (eligible : List String) (screening : Option (Screening F))
      → P s
      → P (after_screening x inp s h stocks eligible screening).0
  unfolding after_screening
  after_screening_keeps inp s h stocks eligible none p = p
  after_screening_keeps inp s h stocks eligible (some screening) p =
      trade_keeps inp _ h _ eligible screening _ _ (kept_assess s _ h.daily_rate inp.now p)

  after_master_keeps :
      (inp : TickInputs F D) (s : OrderService D) (h : Holdings D) (symbols : List String)
      (stocks : Option (List (Stock D)))
      → P s
      → P (after_master x inp s h symbols stocks).0
  unfolding after_master
  after_master_keeps inp s h symbols none p = p
  after_master_keeps inp s h symbols (some stocks) p = after_screening_keeps inp s h _ _ _ p

  after_symbols_keeps :
      (inp : TickInputs F D) (s : OrderService D) (h : Holdings D) (symbols : List String)
      → P s
      → P (after_symbols x inp s h symbols).0
  unfolding after_symbols
  after_symbols_keeps inp s h [] p = p
  after_symbols_keeps inp s h (y ∷ ys) p =
      after_master_keeps inp s h (y ∷ ys) (inp.toss.get_stocks (y ∷ ys)) p

  with_holdings_keeps :
      (inp : TickInputs F D) (s : OrderService D) (h : Option (Holdings D))
      → P s
      → P (with_holdings x inp s h).0
  with_holdings_keeps inp s none p = p
  with_holdings_keeps inp s (some h) p = after_symbols_keeps inp s h _ p

  pub run_tick_keeps : (inp : TickInputs F D) (s : OrderService D) → P s → P (run_tick x inp s).0
  unfolding run_tick
  run_tick_keeps inp s p = with_holdings_keeps inp s _ p

module _ {F D : Type 0} ⦃m : Numeric F⦄ ⦃n : Numeric D⦄ (x : Floats F D) where
  -- In DRY_RUN mode a whole tick places no order.
  pub run_tick_dry_run :
      (inp : TickInputs F D) (s : OrderService D)
      → s.mode ≡ TradingMode.dry_run
      → (run_tick x inp s).0.placed ≡ s.placed
  unfolding assess_circuit_breaker
  run_tick_dry_run inp s dry =
      (run_tick_keeps x (Unsent s.placed) (submit-Unsent s.placed) (λ s equity rate now p. p) inp s
        (dry, refl)).1

  -- With the kill switch engaged a whole tick places no order.
  pub run_tick_killed :
      (inp : TickInputs F D) (s : OrderService D)
      → s.kill_switch ≡ true
      → (run_tick x inp s).0.placed ≡ s.placed
  unfolding assess_circuit_breaker
  run_tick_killed inp s k =
      (run_tick_keeps x (Halted s.placed) (submit-Halted s.placed) (λ s equity rate now p. p) inp s
        (k, refl)).1
