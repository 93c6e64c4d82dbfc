-- ===== src/Api/Reconciling.antt =====
-- Reconciliation and its enforcement (server/app/api/tick.py, reconcile_and_enforce). `now` is the
-- time of the tick, `wall` the UTC time of the database rows and `mono` the monotonic clock of the
-- alerts. `none` stands for an exception: a decimal column that is not a number.
pub mod Enforced
use Prim.Native.Nat.{◌*◌ as nat_mul}
use Prim.Native.String.{◌++◌ as text_append}
use auto_trade_stock_demo.Prelude.{
  ℕ, String, Bool, true, false, not, ◌&&◌, Option, none, some, List, [], ◌∷◌, ◌++◌, Dict, map,
  Message, Part, if◌then◌else◌,
}
use auto_trade_stock_demo.Numeric.{Numeric}
use auto_trade_stock_demo.Clock.{DateTime, minute}
use auto_trade_stock_demo.Core.Alerts.{allow}
use auto_trade_stock_demo.Toss.{Holdings}
use auto_trade_stock_demo.Orders.Models.{TradingMode}
use auto_trade_stock_demo.Orders.Breaker.Persist.{dump_state}
use auto_trade_stock_demo.Orders.Service.{OrderService, engage_kill_switch}
use auto_trade_stock_demo.Orders.Reconcile.{
  Discrepancy, DiscrepancyKind, PositionSnapshot, ReconcileReport, is_ok, reconcile,
  snapshot_from_holdings,
}
use auto_trade_stock_demo.Db.Rows.{Columns, Database, Event}
use auto_trade_stock_demo.Db.Ledger.{submitted_qty_since}
use auto_trade_stock_demo.Db.Positions.{save_positions_snapshot, load_latest_positions, current_of}
use auto_trade_stock_demo.Db.State.{save_engine_state, audit}
use auto_trade_stock_demo.Api.World.{World, notify}

abbrev pub is_live : TradingMode → Bool
is_live TradingMode.live = true
is_live TradingMode.dry_run = false

abbrev kind_name : DiscrepancyKind → String
kind_name DiscrepancyKind.new_symbol = "NEW_SYMBOL"
kind_name DiscrepancyKind.missing_symbol = "MISSING_SYMBOL"
kind_name DiscrepancyKind.quantity_mismatch = "QUANTITY_MISMATCH"

-- `sep.join(f"{d.symbol}{between}{d.kind.value}" for d in discrepancies)`
unfoldable pub listed : {D : Type 0} → String → String → List (Discrepancy D) → String
listed sep between [] = ""
listed sep between (d ∷ []) = text_append d.symbol (text_append between (kind_name d.kind))
listed sep between (d ∷ e ∷ ds) = text_append d.symbol (
    text_append between
      (text_append (kind_name d.kind) (text_append sep (listed sep between (e ∷ ds)))))

-- The window in which an alert is not repeated, of sixty minutes.
abbrev pub alert_window : ℕ
alert_window = nat_mul 60 minute

abbrev pub is_halting : {D : Type 0} → OrderService D → Bool
is_halting s = is_live s.mode && not s.kill_switch

abbrev alert_text : {D : Type 0} → ReconcileReport D → Bool → Message D
alert_text r halted =
    Part.lit "⚠ 리컨실 불일치: "
    ∷ Part.lit (listed "; " " " r.discrepancies)
    ∷ (if halted then Part.lit " → 킬스위치 자동 발동" ∷ [] else [])

module _ {F D : Type 0} (c : Columns D) where
  -- The kill switch of a live service that does not have it yet, saved and audited.
  unfoldable pub halt : World F D → ℕ → World F D
  halt w wall =
      let s = engage_kill_switch w.service in
      record w {
        service = s;
        db =
            audit c
              (save_engine_state c w.db s.kill_switch (dump_state c.texts s.circuit_breaker) wall)
              "system" "kill_switch" (Event.engaged true (some "reconcile_mismatch")) wall;
      }

  -- The alert, at most once in the window; `watched` says that there is a notifier and a gate.
  unfoldable pub alert : World F D → Bool → ReconcileReport D → Bool → ℕ → World F D
  unfolding notify listed
  alert w false r halted mono = w
  alert w true r halted mono =
      let (gate, allowed) =
        allow w.alerts (text_append "reconcile:" (listed "," ":" r.discrepancies)) mono
          alert_window in
      let w' = record w { alerts = gate } in if allowed then notify w' (alert_text r halted) else w'

  -- What is done about a mismatch.
  unfoldable pub enforce : World F D → Bool → ReconcileReport D → ℕ → ℕ → World F D
  unfolding halt alert
  enforce w watched r wall mono =
      let w' = record w {
        db = audit c w.db "system" "reconcile_mismatch" (Event.mismatch r) wall;
      } in
      let halted = is_halting w.service in
      alert (if halted then halt w' wall else w') watched r halted mono

  abbrev pub advance : World F D → Bool → DateTime → List (PositionSnapshot D) → World F D
  advance w false now items = w
  advance w true now items = record w { db = (save_positions_snapshot c w.db now items).0 }

  abbrev pub checked : World F D → Bool → ReconcileReport D → ℕ → ℕ → World F D
  checked w watched r wall mono = if is_ok r then w else enforce w watched r wall mono

module _ {F D : Type 0} ⦃n : Numeric D⦄ (c : Columns D) where
  -- Against a baseline, with the orders that were sent since.
  abbrev pub compare_with :
      World F D
      → Bool
      → Bool
      → DateTime
      → List (PositionSnapshot D)
      → Dict D
      → Option (Dict D)
      → ℕ
      → ℕ
      → Option (World F D × ReconcileReport D)
  compare_with w watched advancing now items previous none wall mono = none
  compare_with w watched advancing now items previous (some delta) wall mono =
      let r = reconcile (some previous) (current_of items []) (some delta) in
      some (advance c (checked c w watched r wall mono) advancing now items, r)

  abbrev pub against :
      World F D
      → Bool
      → Bool
      → DateTime
      → List (PositionSnapshot D)
      → Option (Option (DateTime × Dict D))
      → ℕ
      → ℕ
      → Option (World F D × ReconcileReport D)
  against w watched advancing now items none wall mono = none
  against w watched advancing now items (some none) wall mono = some (
    record w { db = (save_positions_snapshot c w.db now items).0 },
    reconcile none (current_of items []) none,
  )
  against w watched advancing now items (some (some (ts, previous))) wall mono =
      compare_with w watched advancing now items previous (submitted_qty_since c w.db ts) wall mono

  unfoldable pub reconcile_and_enforce :
      World F D
      → Bool
      → Bool
      → Holdings D
      → DateTime
      → ℕ
      → ℕ
      → Option (World F D × ReconcileReport D)
  unfolding enforce
  reconcile_and_enforce w watched advancing holdings now wall mono =
      against w watched advancing now (snapshot_from_holdings holdings)
        (load_latest_positions c w.db) wall mono
