-- ===== src/Engine/Pipeline/Budget.antt =====
-- The daily limit on buys, over a whole tick.
use auto_trade_stock_demo.Prelude.{
  String, Bool, true, false, Option, none, some, List, [], ◌∷◌, Dict, IfKnown, ◌≡◌, refl, ap, sym,
  ◌∙◌,
}
use auto_trade_stock_demo.Numeric.{Numeric, ◌<=◌}
use auto_trade_stock_demo.Toss.{Stock, Holdings}
use auto_trade_stock_demo.Orders.Models.{OrderRequest}
use auto_trade_stock_demo.Orders.Guardrails.{GuardrailConfig, GuardrailContext}
use auto_trade_stock_demo.Orders.Service.{OrderService, submit, assess_circuit_breaker}
use auto_trade_stock_demo.Orders.Service.Submit.{submit_keeps}
use auto_trade_stock_demo.Engine.Costs.{Floats}
use auto_trade_stock_demo.Engine.Judge.{CandidateContext, Decision}
use auto_trade_stock_demo.Engine.Pipeline.{
  TickInputs, TickResult, run_tick, after_symbols, after_master, after_screening, trade,
  with_holdings, start_of, if_completed,
}
use auto_trade_stock_demo.Engine.Pipeline.Stages.{Screening}
use auto_trade_stock_demo.Engine.Pipeline.Sizing.{SizingState, SizingInputs, book, size_all}
use auto_trade_stock_demo.Engine.Pipeline.Invariants.{size_all_keeps}
use auto_trade_stock_demo.Engine.Pipeline.Cap.{Accounts, book-Accounts, total_bought}

module _ {D : Type 0} ⦃n : Numeric D⦄ where
  -- The account of the loop, under a configuration that does not change.
  abbrev AccountsUnder : GuardrailConfig D → D → SizingState D → Type 0
  AccountsUnder cfg used st = (st.service.config ≡ cfg) × Accounts used st

  book-AccountsUnder :
      (cfg : GuardrailConfig D) (used : D) (st : SizingState D) (req : OrderRequest D)
      (ctx : GuardrailContext D)
      → ctx.daily_buy_used_krw ≡ st.daily_used
      → AccountsUnder cfg used st
      → AccountsUnder cfg used (book st req (submit st.service req ctx))
  unfolding book
  book-AccountsUnder cfg used st req ctx e (c, a) =
      ((submit_keeps st.service req ctx).2 ∙ c, book-Accounts used st req ctx e a)

account_limit :
    {D : Type 0} ⦃n : Numeric D⦄ (cfg : GuardrailConfig D) (used : D) (st : SizingState D)
    → AccountsUnder cfg used st
    → (total_bought used st.orders <= cfg.daily_buy_cap_krw) ≡ true
account_limit cfg used st (c, (e, w)) =
    rw e (ap (λ (k : GuardrailConfig _). st.daily_used <= k.daily_buy_cap_krw) (sym c) ∙ w)

completed_lem :
    {A : Type 0} (completed : Bool) (r : A) (Q : A → Type 0)
    → Q r
    → IfKnown (if_completed completed r) Q
completed_lem true r Q q = q
completed_lem false r Q q = tt

module _ {F D : Type 0} ⦃m : Numeric F⦄ ⦃n : Numeric D⦄ (x : Floats F D) where
  -- What a tick bought, on top of what was used before it, is within the limit.
  abbrev pub WithinBudget : GuardrailConfig D → TickInputs F D → Option (TickResult F D) → Type 0
  WithinBudget cfg inp out =
      IfKnown out
        (λ r. (total_bought inp.daily_buy_used_krw r.orders <= cfg.daily_buy_cap_krw) ≡ true)

  loop_limit :
      (inp : TickInputs F D) (s : OrderService D) (io : SizingInputs F D) (ds : List (Decision F D))
      → (inp.daily_buy_used_krw <= s.config.daily_buy_cap_krw) ≡ true
      → (total_bought inp.daily_buy_used_krw (size_all x io (start_of x inp s) ds).0.orders
          <= s.config.daily_buy_cap_krw)
        ≡ true
  loop_limit inp s io ds h =
      account_limit s.config inp.daily_buy_used_krw (size_all x io (start_of x inp s) ds).0 (
        size_all_keeps x (AccountsUnder s.config inp.daily_buy_used_krw) (λ st gated a. a)
          (book-AccountsUnder s.config inp.daily_buy_used_krw) io (start_of x inp s) ds
          (refl, (refl, h)))

  trade-WithinBudget :
      (inp : TickInputs F D) (s : OrderService D) (h : Holdings D) (cash : Option D)
      (eligible : List String) (screening : Screening F) (warned : List String)
      (cs : List (CandidateContext F D))
      → (inp.daily_buy_used_krw <= s.config.daily_buy_cap_krw) ≡ true
      → WithinBudget s.config inp (trade x inp s h cash eligible screening warned cs).1
  unfolding trade
  trade-WithinBudget inp s h cash eligible screening warned [] k = k
  trade-WithinBudget inp s h cash eligible screening warned (c ∷ cs) k =
      completed_lem _ _
        (λ r. (total_bought inp.daily_buy_used_krw r.orders <= s.config.daily_buy_cap_krw) ≡ true)
        (loop_limit inp s _ _ k)

  after_screening-WithinBudget :
      (inp : TickInputs F D) (s : OrderService D) (h : Holdings D) (stocks : Dict (Stock D))
      (eligible : List String) (screening : Option (Screening F))
      → (inp.daily_buy_used_krw <= s.config.daily_buy_cap_krw) ≡ true
      → WithinBudget s.config inp (after_screening x inp s h stocks eligible screening).1
  unfolding after_screening assess_circuit_breaker
  after_screening-WithinBudget inp s h stocks eligible none k = tt
  after_screening-WithinBudget inp s h stocks eligible (some screening) k =
      trade-WithinBudget inp _ h _ eligible screening _ _ k

  after_master-WithinBudget :
      (inp : TickInputs F D) (s : OrderService D) (h : Holdings D) (symbols : List String)
      (stocks : Option (List (Stock D)))
      → (inp.daily_buy_used_krw <= s.config.daily_buy_cap_krw) ≡ true
      → WithinBudget s.config inp (after_master x inp s h symbols stocks).1
  unfolding after_master
  after_master-WithinBudget inp s h symbols none k = tt
  after_master-WithinBudget inp s h symbols (some stocks) k =
      after_screening-WithinBudget inp s h _ _ _ k

  after_symbols-WithinBudget :
      (inp : TickInputs F D) (s : OrderService D) (h : Holdings D) (symbols : List String)
      → (inp.daily_buy_used_krw <= s.config.daily_buy_cap_krw) ≡ true
      → WithinBudget s.config inp (after_symbols x inp s h symbols).1
  unfolding after_symbols
  after_symbols-WithinBudget inp s h [] k = k
  after_symbols-WithinBudget inp s h (y ∷ ys) k =
      after_master-WithinBudget inp s h (y ∷ ys) (inp.toss.get_stocks (y ∷ ys)) k

  with_holdings-WithinBudget :
      (inp : TickInputs F D) (s : OrderService D) (h : Option (Holdings D))
      → (inp.daily_buy_used_krw <= s.config.daily_buy_cap_krw) ≡ true
      → WithinBudget s.config inp (with_holdings x inp s h).1
  with_holdings-WithinBudget inp s none k = tt
  with_holdings-WithinBudget inp s (some h) k = after_symbols-WithinBudget inp s h _ k

  -- If the buys used before a tick are within the daily limit, then so are they with the cost
  -- of every buy that the tick executes (DRY_RUN or SUBMITTED) added, if the tick gives a
  -- result.
  pub run_tick-WithinBudget :
      (inp : TickInputs F D) (s : OrderService D)
      → (inp.daily_buy_used_krw <= s.config.daily_buy_cap_krw) ≡ true
      → WithinBudget s.config inp (run_tick x inp s).1
  unfolding run_tick
  run_tick-WithinBudget inp s k = with_holdings-WithinBudget inp s _ k
