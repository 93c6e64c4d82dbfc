-- ===== src/Orders/Service/Runs.antt =====
-- Sequences of operations on one service, in any order: what holds after each.
use Prim.Native.Nat.{◌+◌}
use auto_trade_stock_demo.Prelude.{
  ℕ, ◌≤◌, String, true, Option, none, List, [], ◌∷◌, ◌++◌, ◌≡◌, inl, inr, refl, ◌∙◌, lookup, insert,
  lookup-insert, arith, ◌==◌, eq_iff, if◌then◌else◌, Option-cases,
}
use auto_trade_stock_demo.Numeric.{Numeric}
use auto_trade_stock_demo.Clock.{DateTime}
use auto_trade_stock_demo.Orders.Models.{OrderRequest, OrderResult, TradingMode}
use auto_trade_stock_demo.Orders.Guardrails.{GuardrailContext}
use auto_trade_stock_demo.Orders.Service.{
  OrderService, submit, assess_circuit_breaker, engage_kill_switch, release_kill_switch,
}
use auto_trade_stock_demo.Orders.Service.Submit.{
  submit-Places, submit-Settles, submit_duplicate, submit_killed, submit_keeps, submit-seen,
}

-- An operation of the service, as the routes and the ticks call them.
pub data Op (D : Type 0) : Type 0 where
  op_submit : OrderRequest D → GuardrailContext D → Op D
  op_assess : Option D → Option D → DateTime → Op D
  op_engage : Op D
  op_release : Op D

-- How often an id was handed to the executor.
abbrev pub count : {D : Type 0} → String → List (OrderRequest D) → ℕ
count id [] = 0
count id (o ∷ os) = (if o.client_order_id == id then 1 else 0) + count id os

pub count-append :
    {D : Type 0} (id : String) (o : OrderRequest D) (os : List (OrderRequest D))
    → count id (os ++ o ∷ []) ≡ count id os + (if o.client_order_id == id then 1 else 0)
count-append id o [] = omega arith
count-append id o (x ∷ os) = omega (arith, count-append id o os)

module _ {D : Type 0} ⦃n : Numeric D⦄ where
  unfoldable pub apply : Op D → OrderService D → OrderService D
  unfolding assess_circuit_breaker engage_kill_switch release_kill_switch
  apply (op_submit o ctx) s = (submit s o ctx).0
  apply (op_assess e r t) s = (assess_circuit_breaker s e r t).0
  apply op_engage s = engage_kill_switch s
  apply op_release s = release_kill_switch s

  unfoldable pub run : List (Op D) → OrderService D → OrderService D
  run [] s = s
  run (op ∷ ops) s = run ops (apply op s)

  -- An id that was placed is remembered, and none was placed twice.
  unfoldable pub PlacedOnce : OrderService D → Type 0
  PlacedOnce s =
      (id : String) → (count id s.placed ≤ 1) × (lookup id s.seen ≡ none → count id s.placed ≡ 0)

  forgets_nothing :
      (s : OrderService D) (o : OrderRequest D) (ctx : GuardrailContext D) (id : String)
      → lookup id (submit s o ctx).0.seen ≡ none
      → lookup id s.seen ≡ none
  forgets_nothing s o ctx id h = elim (submit-seen s o ctx) [
    | inl e ↦ rw (← e) h
    | inr (fresh, e) ↦ ground (arith, lookup-insert o.client_order_id id (submit s o ctx).1 s.seen)
  ]

  placed_step :
      (s : OrderService D) (o : OrderRequest D) (id : String) (t : OrderService D)
      (r : OrderResult D)
      → t.placed ≡ s.placed ++ o ∷ []
      → t.seen ≡ insert o.client_order_id r s.seen
      → lookup o.client_order_id s.seen ≡ none
      → PlacedOnce s
      → (count id t.placed ≤ 1) × (lookup id t.seen ≡ none → count id t.placed ≡ 0)
  unfolding PlacedOnce
  placed_step s o id t r p e fresh h =
      rw (p, e, count-append, lookup-insert)
        (ground (arith, eq_iff o.client_order_id id, h id, h o.client_order_id))

  submit-PlacedOnce :
      (s : OrderService D) (o : OrderRequest D) (ctx : GuardrailContext D)
      → PlacedOnce s
      → PlacedOnce (submit s o ctx).0
  unfolding PlacedOnce
  submit-PlacedOnce s o ctx h id = elim (submit-Places s o ctx) [
    | inl p ↦ rw p ((h id).0, λ e. (h id).1 (forgets_nothing s o ctx id e))
    | inr (p, live, fresh, ok) ↦
        placed_step s o id (submit s o ctx).0 (submit s o ctx).1 p (submit-Settles s o ctx fresh).5
          fresh h
  ]

  apply-mode : (op : Op D) (s : OrderService D) → (apply op s).mode ≡ s.mode
  unfolding apply
  apply-mode (op_submit o ctx) s = (submit_keeps s o ctx).0
  apply-mode (op_assess e r t) s = refl
  apply-mode op_engage s = refl
  apply-mode op_release s = refl

  apply-PlacedOnce : (op : Op D) (s : OrderService D) → PlacedOnce s → PlacedOnce (apply op s)
  unfolding apply PlacedOnce
  apply-PlacedOnce (op_submit o ctx) s h = submit-PlacedOnce s o ctx h
  apply-PlacedOnce (op_assess e r t) s h = h
  apply-PlacedOnce op_engage s h = h
  apply-PlacedOnce op_release s h = h

  -- Over any sequence of operations that starts from a service which placed no id twice and
  -- remembers every id it placed, the executor is called at most once for each client order
  -- id, and each id that was placed is remembered.
  pub run-PlacedOnce :
      (ops : List (Op D)) (s : OrderService D) → PlacedOnce s → PlacedOnce (run ops s)
  unfolding run
  run-PlacedOnce [] s h = h
  run-PlacedOnce (op ∷ ops) s h = run-PlacedOnce ops (apply op s) (apply-PlacedOnce op s h)

  pub placed_once :
      (ops : List (Op D)) (s : OrderService D)
      → PlacedOnce s
      → (id : String) → count id (run ops s).placed ≤ 1
  unfolding PlacedOnce
  placed_once ops s h id = (run-PlacedOnce ops s h id).0

  apply_dry_run :
      (op : Op D) (s : OrderService D)
      → s.mode ≡ TradingMode.dry_run
      → (apply op s).placed ≡ s.placed
  unfolding apply
  apply_dry_run (op_submit o ctx) s m = elim (submit-Places s o ctx) [
    | inl p ↦ p
    | inr (p, live, fresh, ok) ↦ absurd (modes_differ s.mode m live)
  ]
    where
      modes_differ : (mode : TradingMode) → mode ≡ TradingMode.dry_run → ¬ (mode ≡ TradingMode.live)
      modes_differ mode p q = ground arith
  apply_dry_run (op_assess e r t) s m = refl
  apply_dry_run op_engage s m = refl
  apply_dry_run op_release s m = refl

  -- In DRY_RUN mode no sequence of operations calls the executor.
  pub run_dry_run :
      (ops : List (Op D)) (s : OrderService D)
      → s.mode ≡ TradingMode.dry_run
      → (run ops s).placed ≡ s.placed
  unfolding run
  run_dry_run [] s m = refl
  run_dry_run (op ∷ ops) s m =
      run_dry_run ops (apply op s) (apply-mode op s ∙ m) ∙ apply_dry_run op s m

  -- No operation of the list releases the kill switch.
  abbrev pub NoRelease : List (Op D) → Type 0
  NoRelease [] = Unit
  NoRelease (op_release ∷ ops) = ⊥
  NoRelease (op_submit o ctx ∷ ops) = NoRelease ops
  NoRelease (op_assess e r t ∷ ops) = NoRelease ops
  NoRelease (op_engage ∷ ops) = NoRelease ops

  killed_places_nothing :
      (s : OrderService D) (o : OrderRequest D) (ctx : GuardrailContext D)
      → s.kill_switch ≡ true
      → (submit s o ctx).0.placed ≡ s.placed
  killed_places_nothing s o ctx k = elim (Option-cases (lookup o.client_order_id s.seen)) [
    | inl e ↦ (submit_killed s o ctx k e).1
    | inr (prior, e) ↦ rw (submit_duplicate s o ctx e) refl
  ]

  -- From a service with the kill switch engaged, operations that do not release it place
  -- nothing and leave it engaged.
  pub run_killed :
      (ops : List (Op D)) (s : OrderService D)
      → s.kill_switch ≡ true
      → NoRelease ops
      → ((run ops s).placed ≡ s.placed) × ((run ops s).kill_switch ≡ true)
  unfolding run apply
  run_killed [] s k h = (refl, k)
  run_killed (op_submit o ctx ∷ ops) s k h =
      let (p, q) = run_killed ops (submit s o ctx).0 ((submit_keeps s o ctx).1 ∙ k) h in
      (p ∙ killed_places_nothing s o ctx k, q)
  run_killed (op_assess e r t ∷ ops) s k h = run_killed ops (assess_circuit_breaker s e r t).0 k h
  run_killed (op_engage ∷ ops) s k h = run_killed ops (engage_kill_switch s) refl h
  run_killed (op_release ∷ ops) s k h = absurd h
