-- ===== src/Api/Reconciling/Enforced.antt =====
-- What a mismatch of the positions does to the orders.
use auto_trade_stock_demo.Prelude.{
  ℕ, Bool, true, false, Option, none, some, List, Dict, IfKnown, ◌≡◌, inl, inr, refl, ap, ◌∙◌,
  arith, Bool-cases, if◌then◌else◌,
}
use mathlib.Core.Path.{subst}
use auto_trade_stock_demo.Numeric.{Numeric}
use auto_trade_stock_demo.Clock.{DateTime}
use auto_trade_stock_demo.Toss.{Holdings}
use auto_trade_stock_demo.Orders.Models.{TradingMode}
use auto_trade_stock_demo.Orders.Breaker.Persist.{dump_state}
use auto_trade_stock_demo.Orders.Service.{OrderService, engage_kill_switch}
use auto_trade_stock_demo.Orders.Reconcile.{
  PositionSnapshot, ReconcileReport, is_ok, reconcile, snapshot_from_holdings,
}
use auto_trade_stock_demo.Engine.Costs.{Floats}
use auto_trade_stock_demo.Engine.Pipeline.{TickInputs, run_tick}
use auto_trade_stock_demo.Engine.Pipeline.Ticks.{run_tick_killed}
use auto_trade_stock_demo.Db.Rows.{Columns, Event}
use auto_trade_stock_demo.Db.Positions.{save_positions_snapshot, load_latest_positions}
use auto_trade_stock_demo.Db.Ledger.{submitted_qty_since}
use auto_trade_stock_demo.Db.State.{save_engine_state, load_engine_state, audit}
use auto_trade_stock_demo.Api.World.{World, notify}
use auto_trade_stock_demo.Api.Reconciling.{
  halt, alert, enforce, advance, checked, compare_with, against, reconcile_and_enforce, is_halting,
}

engaged :
    {D : Type 0} (s : OrderService D)
    → s.mode ≡ TradingMode.live
    → (if is_halting s then engage_kill_switch s else s) ≡ engage_kill_switch s
unfolding engage_kill_switch
engaged s live = ground arith

module _ {F D : Type 0} (c : Columns D) where
  -- The order service after a reconciliation with this report: it differs by the kill switch at
  -- most, which a mismatch engages in LIVE mode, and which is in the database once it was engaged.
  pub record Enforces (w w' : World F D) (r : ReconcileReport D) : Type 0 where
    pub halts :
        is_ok r ≡ false
        → w.service.mode ≡ TradingMode.live
        → w'.service ≡ engage_kill_switch w.service
    pub persists :
        is_ok r ≡ false
        → w.service.mode ≡ TradingMode.live
        → w.service.kill_switch ≡ false
        → load_engine_state w'.db ≡ some (true, dump_state c.texts w.service.circuit_breaker)
    pub observes : w.service.mode ≡ TradingMode.dry_run → w'.service ≡ w.service
    pub trusts : is_ok r ≡ true → w'.service ≡ w.service

  alert_keeps :
      (w : World F D) (watched : Bool) (r : ReconcileReport D) (halted : Bool) (mono : ℕ)
      → ((alert c w watched r halted mono).service ≡ w.service)
        × ((alert c w watched r halted mono).db ≡ w.db)
  unfolding alert notify
  alert_keeps w false r halted mono = (refl, refl)
  alert_keeps w true r halted mono = ground arith

  advance_keeps :
      (w : World F D) (advancing : Bool) (now : DateTime) (items : List (PositionSnapshot D))
      → ((advance c w advancing now items).service ≡ w.service)
        × (load_engine_state (advance c w advancing now items).db ≡ load_engine_state w.db)
  unfolding save_positions_snapshot load_engine_state
  advance_keeps w false now items = (refl, refl)
  advance_keeps w true now items = (refl, refl)

  enforce_keeps :
      (w : World F D) (watched : Bool) (r : ReconcileReport D) (wall mono : ℕ)
      → ((enforce c w watched r wall mono).service
          ≡ (if is_halting w.service then engage_kill_switch w.service else w.service))
        × (is_halting w.service ≡ true
            → load_engine_state (enforce c w watched r wall mono).db
              ≡ some (true, dump_state c.texts w.service.circuit_breaker))
  unfolding enforce halt load_engine_state save_engine_state audit engage_kill_switch
  enforce_keeps w watched r wall mono =
      let w' = record w {
        db = audit c w.db "system" "reconcile_mismatch" (Event.mismatch r) wall;
      } in
      elim (Bool-cases (is_halting w.service)) [
        | inl e ↦
            let kept = alert_keeps (halt c w' wall) watched r true mono in
            rw e (kept.0, λ h. ap load_engine_state kept.1)
        | inr e ↦ let kept = alert_keeps w' watched r false mono in rw e (kept.0, λ h. ground arith)
      ]

  checked-Enforces :
      (w : World F D) (watched : Bool) (r : ReconcileReport D) (wall mono : ℕ)
      → Enforces w (checked c w watched r wall mono) r
  unfolding engage_kill_switch
  checked-Enforces w watched r wall mono =
      let kept = enforce_keeps w watched r wall mono in
      record {
        halts = λ bad live. rw bad (kept.0 ∙ engaged w.service live);
        persists = λ bad live off. rw bad (kept.1 (rw live (rw off refl)));
        observes = λ dry. elim (Bool-cases (is_ok r)) [
          | inl ok ↦ rw ok refl
          | inr bad ↦ rw bad (kept.0 ∙ rw dry refl)
        ];
        trusts = λ ok. rw ok refl;
      }

  advanced-Enforces :
      (w w' : World F D) (r : ReconcileReport D) (advancing : Bool) (now : DateTime)
      (items : List (PositionSnapshot D))
      → Enforces w w' r
      → Enforces w (advance c w' advancing now items) r
  advanced-Enforces w w' r advancing now items e =
      let kept = advance_keeps w' advancing now items in
      record {
        halts = λ bad live. kept.0 ∙ e.halts bad live;
        persists = λ bad live off. kept.1 ∙ e.persists bad live off;
        observes = λ dry. kept.0 ∙ e.observes dry;
        trusts = λ ok. kept.0 ∙ e.trusts ok;
      }

module _ {F D : Type 0} ⦃n : Numeric D⦄ (c : Columns D) where
  compared-Enforces :
      (w : World F D) (watched advancing : Bool) (now : DateTime)
      (items : List (PositionSnapshot D)) (previous : Dict D) (delta : Option (Dict D))
      (wall mono : ℕ)
      → IfKnown
          (compare_with c w watched advancing now items previous delta wall mono)
          (λ q. Enforces c w q.0 q.1)
  compared-Enforces w watched advancing now items previous none wall mono = tt
  compared-Enforces w watched advancing now items previous (some delta) wall mono =
      advanced-Enforces c w _ _ advancing now items (checked-Enforces c w watched _ wall mono)

  against-Enforces :
      (w : World F D) (watched advancing : Bool) (now : DateTime)
      (items : List (PositionSnapshot D)) (baseline : Option (Option (DateTime × Dict D)))
      (wall mono : ℕ)
      → IfKnown
          (against c w watched advancing now items baseline wall mono)
          (λ q. Enforces c w q.0 q.1)
  unfolding is_ok reconcile save_positions_snapshot
  against-Enforces w watched advancing now items none wall mono = tt
  against-Enforces w watched advancing now items (some none) wall mono = record {
    halts = λ bad live. ground arith;
    persists = λ bad live off. ground arith;
    observes = λ dry. refl;
    trusts = λ ok. refl;
  }
  against-Enforces w watched advancing now items (some (some (ts, previous))) wall mono =
      compared-Enforces w watched advancing now items previous (submitted_qty_since c w.db ts) wall
        mono

  -- A reconciliation that reports a mismatch in LIVE mode engages the kill switch and changes
  -- nothing else of the service, and a switch that it engaged is in the database with the
  -- state of the breaker; in DRY_RUN mode, and where the report is clean or a baseline, the
  -- service is left alone.
  pub reconcile_and_enforce-Enforces :
      (w : World F D) (watched advancing : Bool) (holdings : Holdings D) (now : DateTime)
      (wall mono : ℕ)
      → IfKnown
          (reconcile_and_enforce c w watched advancing holdings now wall mono)
          (λ q. Enforces c w q.0 q.1)
  unfolding reconcile_and_enforce
  reconcile_and_enforce-Enforces w watched advancing holdings now wall mono =
      against-Enforces w watched advancing now (snapshot_from_holdings holdings)
        (load_latest_positions c w.db) wall mono

module _ {F D : Type 0} ⦃m : Numeric F⦄ ⦃n : Numeric D⦄ (x : Floats F D) (c : Columns D) where
  -- A tick after a reconciliation that reported a mismatch in LIVE mode places no order.
  pub run_tick-reconcile_and_enforce :
      (w : World F D) (watched advancing : Bool) (holdings : Holdings D) (now : DateTime)
      (wall mono : ℕ) (w' : World F D) (r : ReconcileReport D) (inp : TickInputs F D)
      → reconcile_and_enforce c w watched advancing holdings now wall mono ≡ some (w', r)
      → is_ok r ≡ false
      → w.service.mode ≡ TradingMode.live
      → (run_tick x inp w'.service).0.placed ≡ w.service.placed
  unfolding engage_kill_switch
  run_tick-reconcile_and_enforce w watched advancing holdings now wall mono w' r inp e bad live =
      let enforced =
        subst (λ out. IfKnown out (λ q. Enforces c w q.0 q.1)) e
          (reconcile_and_enforce-Enforces c w watched advancing holdings now wall mono) in
      let same : w'.service ≡ engage_kill_switch w.service = enforced.halts bad live in
      run_tick_killed x inp w'.service (ap (λ (s : OrderService D). s.kill_switch) same)
      ∙ ap (λ (s : OrderService D). s.placed) same
