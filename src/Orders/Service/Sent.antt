-- ===== src/Orders/Service/Sent.antt =====
-- The sent orders that the ledger reports, against the calls of the executor.
use Prim.Native.Nat.{◌+◌}
use auto_trade_stock_demo.Prelude.{
  ℕ, ◌≤◌, String, false, List, [], ◌∷◌, ◌++◌, ◌≡◌, ◌⊎◌, inl, inr, lookup, arith, ◌==◌, map,
  if◌then◌else◌, Option-cases,
}
use auto_trade_stock_demo.Numeric.{Numeric}
use auto_trade_stock_demo.Orders.Models.{OrderRequest, OrderResult, is_submitted}
use auto_trade_stock_demo.Orders.Guardrails.{GuardrailContext, Violation, run_guardrails}
use auto_trade_stock_demo.Orders.Service.{
  OrderService, submit, decide, effective, sent_orders, assess_circuit_breaker, engage_kill_switch,
  release_kill_switch,
}
use auto_trade_stock_demo.Orders.Service.Submit.{submit_duplicate, submit_fresh}
use auto_trade_stock_demo.Orders.Service.Runs.{
  Op, op_submit, op_assess, op_engage, op_release, apply, run, count, count-append, PlacedOnce,
  placed_once,
}

-- How often an id is reported as sent.
abbrev pub count_sent : {D : Type 0} → String → List (OrderResult D) → ℕ
count_sent id rs = count id (map (λ r. r.request) (sent_orders rs))

sent_orders-append :
    {D : Type 0} (id : String) (r : OrderResult D) (rs : List (OrderResult D))
    → count_sent id (rs ++ r ∷ [])
      ≡ count_sent id rs
        + (if is_submitted r.status then (if r.request.client_order_id == id then 1 else 0) else 0)
unfolding sent_orders
sent_orders-append id r [] = ground arith
sent_orders-append id r (x ∷ rs) = ground (arith, sent_orders-append id r rs)

module _ {D : Type 0} ⦃n : Numeric D⦄ where
  -- No id is reported as sent more often than it was handed to the executor.
  unfoldable pub SentWasPlaced : OrderService D → Type 0
  SentWasPlaced s = (id : String) → count_sent id s.ledger ≤ count id s.placed

  decide_ledger :
      (s : OrderService D) (o : OrderRequest D) (vs : List (Violation D))
      → ((decide s o vs).1.request ≡ o)
        × ((decide s o vs).0.ledger ≡ s.ledger ++ (decide s o vs).1 ∷ [])
        × (((decide s o vs).0.placed ≡ s.placed ++ o ∷ [])
            ⊎ ((decide s o vs).0.placed ≡ s.placed)
              × (is_submitted (decide s o vs).1.status ≡ false))
  unfolding decide is_submitted
  decide_ledger s o vs = ground arith

  sent_step :
      (s t : OrderService D) (o : OrderRequest D) (r : OrderResult D) (id : String)
      → r.request ≡ o
      → t.ledger ≡ s.ledger ++ r ∷ []
      → ((t.placed ≡ s.placed ++ o ∷ []) ⊎ (t.placed ≡ s.placed) × (is_submitted r.status ≡ false))
      → count_sent id s.ledger ≤ count id s.placed
      → count_sent id t.ledger ≤ count id t.placed
  sent_step s t o r id q l (inl p) h = rw (l, p, sent_orders-append, count-append, q) (ground arith)
  sent_step s t o r id q l (inr (p, f)) h = rw (l, p, sent_orders-append, f) (omega arith)

  submit-SentWasPlaced :
      (s : OrderService D) (o : OrderRequest D) (ctx : GuardrailContext D)
      → SentWasPlaced s
      → SentWasPlaced (submit s o ctx).0
  unfolding SentWasPlaced
  submit-SentWasPlaced s o ctx h id = elim (Option-cases (lookup o.client_order_id s.seen)) [
    | inl e ↦
        let vs = run_guardrails o (effective s ctx) s.config in
        let (q, l, p) = decide_ledger s o vs in
        rw (submit_fresh s o ctx e)
          (sent_step s (decide s o vs).0 o (decide s o vs).1 id q l p (h id))
    | inr (prior, e) ↦ rw (submit_duplicate s o ctx e) (h id)
  ]

  run-SentWasPlaced :
      (ops : List (Op D)) (s : OrderService D) → SentWasPlaced s → SentWasPlaced (run ops s)
  unfolding run apply SentWasPlaced
  run-SentWasPlaced [] s h = h
  run-SentWasPlaced (op_submit o ctx ∷ ops) s h =
      run-SentWasPlaced ops (submit s o ctx).0 (submit-SentWasPlaced s o ctx h)
  run-SentWasPlaced (op_assess e r t ∷ ops) s h =
      run-SentWasPlaced ops (assess_circuit_breaker s e r t).0 h
  run-SentWasPlaced (op_engage ∷ ops) s h = run-SentWasPlaced ops (engage_kill_switch s) h
  run-SentWasPlaced (op_release ∷ ops) s h = run-SentWasPlaced ops (release_kill_switch s) h

  -- Over any sequence of operations from a service that placed no id twice and whose SUBMITTED
  -- entries were placed, an id is reported as sent no more often than it was handed to the
  -- executor, and at most once.
  pub run_sent :
      (ops : List (Op D)) (s : OrderService D) (id : String)
      → PlacedOnce s
      → SentWasPlaced s
      → (count_sent id (run ops s).ledger ≤ count id (run ops s).placed)
        × (count_sent id (run ops s).ledger ≤ 1)
  unfolding SentWasPlaced
  run_sent ops s id once sent =
      omega (arith, run-SentWasPlaced ops s sent id, placed_once ops s once id)
