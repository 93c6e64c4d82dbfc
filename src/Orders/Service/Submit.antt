-- ===== src/Orders/Service/Submit.antt =====
-- What one call of `submit` does.
use auto_trade_stock_demo.Prelude.{
  true, none, some, List, [], ◌∷◌, ◌++◌, ◌≡◌, ◌≢◌, ◌⊎◌, inl, inr, refl, lookup, insert, arith,
  Option-cases,
}
use auto_trade_stock_demo.Numeric.{Numeric}
use auto_trade_stock_demo.Orders.Models.{OrderRequest, OrderResult, OrderStatus, TradingMode, buy}
use auto_trade_stock_demo.Orders.Guardrails.{
  GuardrailContext, Violation, run_guardrails, guard_kill_switch, guard_circuit_breaker,
}
use auto_trade_stock_demo.Orders.Guardrails.Admission.{Admitted, run_guardrails-nil_iff}
use auto_trade_stock_demo.Orders.Breaker.{tripped}
use auto_trade_stock_demo.Orders.Service.{OrderService, submit, decide, effective, duplicate_of}

module _ {D : Type 0} ⦃n : Numeric D⦄ where
  -- A repeated id is answered with the earlier result, marked DUPLICATE; only the audit sees it.
  pub submit_duplicate :
      (s : OrderService D) (o : OrderRequest D) (ctx : GuardrailContext D) {prior : OrderResult D}
      → lookup o.client_order_id s.seen ≡ some prior
      → submit s o ctx
        ≡ (record s { audited = s.audited ++ duplicate_of prior ∷ [] }, duplicate_of prior)
  unfolding submit
  submit_duplicate s o ctx e = ground arith

  pub submit_fresh :
      (s : OrderService D) (o : OrderRequest D) (ctx : GuardrailContext D)
      → lookup o.client_order_id s.seen ≡ none
      → submit s o ctx ≡ decide s o (run_guardrails o (effective s ctx) s.config)
  unfolding submit
  submit_fresh s o ctx e = rw e

  -- A submission calls the executor at most once, and only in LIVE mode, for a fresh id, with an
  -- order that the guardrails admit under the switches of the service.
  abbrev pub Places : OrderService D → OrderRequest D → GuardrailContext D → OrderService D → Type 0
  Places s o ctx t =
      (t.placed ≡ s.placed)
      ⊎ ((t.placed ≡ s.placed ++ o ∷ [])
          × (s.mode ≡ TradingMode.live)
          × (lookup o.client_order_id s.seen ≡ none)
          × Admitted o (effective s ctx) s.config)

  decide-Places :
      (s : OrderService D) (o : OrderRequest D) (ctx : GuardrailContext D)
      → lookup o.client_order_id s.seen ≡ none
      → (run_guardrails o (effective s ctx) s.config ≡ [] → Admitted o (effective s ctx) s.config)
      → Places s o ctx (decide s o (run_guardrails o (effective s ctx) s.config)).0
  unfolding decide
  decide-Places s o ctx e h = ground arith

  -- A submission leaves the list of executor calls alone or adds this order to it; it adds it
  -- only in LIVE mode, for an id that was not seen, and with an order that the guardrails
  -- admit under the switches of the service.
  pub submit-Places :
      (s : OrderService D) (o : OrderRequest D) (ctx : GuardrailContext D)
      → Places s o ctx (submit s o ctx).0
  submit-Places s o ctx = elim (Option-cases (lookup o.client_order_id s.seen)) [
    | inl e ↦
        rw (submit_fresh s o ctx e)
          (decide-Places s o ctx e (run_guardrails-nil_iff o (effective s ctx) s.config).0)
    | inr (prior, e) ↦ rw (submit_duplicate s o ctx e) (inl refl)
  ]

  -- A submission of a fresh id is settled: its result is about that order, is not a duplicate, and
  -- is the one entry that the ledger, the memory of ids and the audit receive.
  abbrev pub Settles : OrderService D → OrderRequest D → OrderService D × OrderResult D → Type 0
  Settles s o out =
      (out.1.client_order_id ≡ o.client_order_id)
      × (out.1.request ≡ o)
      × (out.1.mode ≡ s.mode)
      × (out.1.status ≢ OrderStatus.duplicate)
      × (out.0.ledger ≡ s.ledger ++ out.1 ∷ [])
      × (out.0.seen ≡ insert o.client_order_id out.1 s.seen)
      × (out.0.audited ≡ s.audited ++ out.1 ∷ [])

  decide-Settles :
      (s : OrderService D) (o : OrderRequest D) (vs : List (Violation D))
      → Settles s o (decide s o vs)
  unfolding decide
  decide-Settles s o vs = ground arith

  -- A submission of an id that was not seen has a result about that order in the mode of the
  -- service, which is not DUPLICATE, and this result is the one entry that the ledger, the
  -- memory of ids and the audit receive.
  pub submit-Settles :
      (s : OrderService D) (o : OrderRequest D) (ctx : GuardrailContext D)
      → lookup o.client_order_id s.seen ≡ none
      → Settles s o (submit s o ctx)
  unfolding submit
  submit-Settles s o ctx e = rw e (decide-Settles s o (run_guardrails o (effective s ctx) s.config))

  -- The statuses under which an order counts as executed.
  abbrev pub Accepted : OrderResult D → Type 0
  Accepted r = (r.status ≡ OrderStatus.dry_run) ⊎ (r.status ≡ OrderStatus.submitted)

  decide-Accepted :
      (s : OrderService D) (o : OrderRequest D) (vs : List (Violation D))
      → Accepted (decide s o vs).1
      → vs ≡ []
  unfolding decide
  decide-Accepted s o [] h = refl
  decide-Accepted s o (v ∷ vs) h = ground arith

  -- If a submission is answered with DRY_RUN or SUBMITTED, then the guardrails admit the order
  -- under the switches of the service.
  pub submit-Accepted-Admitted :
      (s : OrderService D) (o : OrderRequest D) (ctx : GuardrailContext D)
      → Accepted (submit s o ctx).1
      → Admitted o (effective s ctx) s.config
  unfolding submit
  submit-Accepted-Admitted s o ctx a = elim (Option-cases (lookup o.client_order_id s.seen)) [
    | inl e ↦
        (run_guardrails-nil_iff o (effective s ctx) s.config).0 (decide-Accepted s o _ (rw e at a))
    | inr (prior, e) ↦ absurd (duplicate_refused (duplicate_of prior) refl (rw e at a))
  ]
    where
      duplicate_refused : (r : OrderResult D) → r.status ≡ OrderStatus.duplicate → ¬ Accepted r
      duplicate_refused r d x = ground arith

  -- With the kill switch engaged a fresh order of either side is rejected and not placed.
  pub submit_killed :
      (s : OrderService D) (o : OrderRequest D) (ctx : GuardrailContext D)
      → s.kill_switch ≡ true
      → lookup o.client_order_id s.seen ≡ none
      → ((submit s o ctx).1.status ≡ OrderStatus.rejected) × ((submit s o ctx).0.placed ≡ s.placed)
  unfolding submit effective run_guardrails guard_kill_switch
  submit_killed s o ctx k e = ground arith

  -- While the breaker is tripped, a buy of an id that was not seen is rejected and not placed.
  pub submit-tripped_buy :
      (s : OrderService D) (o : OrderRequest D) (ctx : GuardrailContext D)
      → tripped s.circuit_breaker ≡ true
      → o.side ≡ buy
      → lookup o.client_order_id s.seen ≡ none
      → ((submit s o ctx).1.status ≡ OrderStatus.rejected) × ((submit s o ctx).0.placed ≡ s.placed)
  unfolding submit effective run_guardrails guard_circuit_breaker
  submit-tripped_buy s o ctx k b e = ground arith

  decide_keeps :
      (s : OrderService D) (o : OrderRequest D) (vs : List (Violation D))
      → ((decide s o vs).0.mode ≡ s.mode)
        × ((decide s o vs).0.kill_switch ≡ s.kill_switch)
        × ((decide s o vs).0.config ≡ s.config)
        × ((decide s o vs).0.circuit_breaker ≡ s.circuit_breaker)
  unfolding decide
  decide_keeps s o vs = ground arith

  -- A submission leaves the mode, the switch, the configuration and the breaker alone.
  pub submit_keeps :
      (s : OrderService D) (o : OrderRequest D) (ctx : GuardrailContext D)
      → ((submit s o ctx).0.mode ≡ s.mode)
        × ((submit s o ctx).0.kill_switch ≡ s.kill_switch)
        × ((submit s o ctx).0.config ≡ s.config)
        × ((submit s o ctx).0.circuit_breaker ≡ s.circuit_breaker)
  submit_keeps s o ctx = elim (Option-cases (lookup o.client_order_id s.seen)) [
    | inl e ↦ rw (submit_fresh s o ctx e) (decide_keeps s o _)
    | inr (prior, e) ↦ rw (submit_duplicate s o ctx e) (refl, refl, refl, refl)
  ]

  -- The memory of ids after a submission.
  pub submit-seen :
      (s : OrderService D) (o : OrderRequest D) (ctx : GuardrailContext D)
      → ((submit s o ctx).0.seen ≡ s.seen)
        ⊎ ((lookup o.client_order_id s.seen ≡ none)
            × ((submit s o ctx).0.seen ≡ insert o.client_order_id (submit s o ctx).1 s.seen))
  submit-seen s o ctx = elim (Option-cases (lookup o.client_order_id s.seen)) [
    | inl e ↦ inr (e, (submit-Settles s o ctx e).5)
    | inr (prior, e) ↦ rw (submit_duplicate s o ctx e) (inl refl)
  ]
