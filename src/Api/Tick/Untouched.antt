-- ===== src/Api/Tick/Untouched.antt =====
-- What the part of a tick before `run_tick` leaves alone.
use auto_trade_stock_demo.Prelude.{
  ℕ, Bool, true, false, Option, none, some, List, Dict, IfKnown, ◌≡◌, refl, ◌∙◌, if◌then◌else◌,
}
use auto_trade_stock_demo.Numeric.{Numeric}
use auto_trade_stock_demo.Clock.{DateTime}
use auto_trade_stock_demo.Toss.{Holdings}
use auto_trade_stock_demo.Orders.Service.{engage_kill_switch}
use auto_trade_stock_demo.Orders.Reconcile.{
  PositionSnapshot, ReconcileReport, is_ok, snapshot_from_holdings,
}
use auto_trade_stock_demo.Engine.Paper.{PaperPortfolio}
use auto_trade_stock_demo.Engine.Pipeline.Stages.{Toss}
use auto_trade_stock_demo.Db.Rows.{Columns, Event}
use auto_trade_stock_demo.Db.Positions.{save_positions_snapshot, load_latest_positions}
use auto_trade_stock_demo.Db.Ledger.{submitted_qty_since, buy_notional_today, trade_date_kst}
use auto_trade_stock_demo.Db.PaperBook.{load_paper, save_paper}
use auto_trade_stock_demo.Db.State.{save_engine_state, audit}
use auto_trade_stock_demo.Api.World.{World, notify}
use auto_trade_stock_demo.Api.Reconciling.{
  halt, alert, enforce, advance, checked, compare_with, against, reconcile_and_enforce, is_halting,
}
use auto_trade_stock_demo.Api.Tick.Env.{TickEnv}
use auto_trade_stock_demo.Api.Tick.Preparing.{
  prepare, prepare_with, reconciled, open_paper, set_up, opened_book, paper_on,
}

module _ {F D : Type 0} where
  -- The orders and the ticks of the database, the limits and the mode of the service and what it
  -- placed are the same.
  pub record Untouched (w w' : World F D) : Type 0 where
    pub same_orders : w'.db.orders ≡ w.db.orders
    pub same_ticks : w'.db.ticks ≡ w.db.ticks
    pub same_config : w'.service.config ≡ w.service.config
    pub same_mode : w'.service.mode ≡ w.service.mode
    pub same_placed : w'.service.placed ≡ w.service.placed

  untouched :
      (w w' : World F D)
      → w'.db.orders ≡ w.db.orders
      → w'.db.ticks ≡ w.db.ticks
      → w'.service.config ≡ w.service.config
      → w'.service.mode ≡ w.service.mode
      → w'.service.placed ≡ w.service.placed
      → Untouched w w'
  untouched w w' a b d e f = record {
    same_orders = a;
    same_ticks = b;
    same_config = d;
    same_mode = e;
    same_placed = f;
  }

  pub Untouched-refl : (w : World F D) → Untouched w w
  Untouched-refl w = record {
    same_orders = refl;
    same_ticks = refl;
    same_config = refl;
    same_mode = refl;
    same_placed = refl;
  }

  pub Untouched-trans : (a b d : World F D) → Untouched a b → Untouched b d → Untouched a d
  Untouched-trans a b d p q = record {
    same_orders = q.same_orders ∙ p.same_orders;
    same_ticks = q.same_ticks ∙ p.same_ticks;
    same_config = q.same_config ∙ p.same_config;
    same_mode = q.same_mode ∙ p.same_mode;
    same_placed = q.same_placed ∙ p.same_placed;
  }

  Untouched-if :
      (b : Bool) (w p q : World F D)
      → Untouched w p
      → Untouched w q
      → Untouched w (if b then p else q)
  Untouched-if true w p q u v = u
  Untouched-if false w p q u v = v

  first_if :
      {A : Type 0} (b : Bool) (w : World F D) (p q : World F D × A)
      → Untouched w p.0
      → Untouched w q.0
      → Untouched w (if b then p else q).0
  first_if true w p q u v = u
  first_if false w p q u v = v

module _ {F D : Type 0} (c : Columns D) where
  alert-Untouched :
      (w : World F D) (watched : Bool) (r : ReconcileReport D) (halted : Bool) (mono : ℕ)
      → Untouched w (alert c w watched r halted mono)
  unfolding alert notify
  alert-Untouched w false r halted mono = Untouched-refl w
  alert-Untouched w true r halted mono =
      Untouched-if _ w _ _ (untouched w _ refl refl refl refl refl)
        (untouched w _ refl refl refl refl refl)

  halt-Untouched : (w : World F D) (wall : ℕ) → Untouched w (halt c w wall)
  unfolding halt audit save_engine_state engage_kill_switch
  halt-Untouched w wall = untouched w _ refl refl refl refl refl

  enforce-Untouched :
      (w : World F D) (watched : Bool) (r : ReconcileReport D) (wall mono : ℕ)
      → Untouched w (enforce c w watched r wall mono)
  unfolding enforce audit
  enforce-Untouched w watched r wall mono =
      let w' : World F D = record w {
        db = audit c w.db "system" "reconcile_mismatch" (Event.mismatch r) wall;
      } in
      Untouched-trans w w' _ (untouched w w' refl refl refl refl refl) (
        Untouched-trans w' (if is_halting w.service then halt c w' wall else w') _
          (Untouched-if (is_halting w.service) w' _ _ (halt-Untouched w' wall) (Untouched-refl w'))
          (alert-Untouched _ watched r (is_halting w.service) mono))

  advance-Untouched :
      (w : World F D) (advancing : Bool) (now : DateTime) (items : List (PositionSnapshot D))
      → Untouched w (advance c w advancing now items)
  unfolding save_positions_snapshot
  advance-Untouched w false now items = Untouched-refl w
  advance-Untouched w true now items = untouched w _ refl refl refl refl refl

  checked-Untouched :
      (w : World F D) (watched : Bool) (r : ReconcileReport D) (wall mono : ℕ)
      → Untouched w (checked c w watched r wall mono)
  checked-Untouched w watched r wall mono =
      Untouched-if (is_ok r) w _ _ (Untouched-refl w) (enforce-Untouched w watched r wall mono)

module _ {F D : Type 0} ⦃n : Numeric D⦄ (c : Columns D) where
  compared-Untouched :
      (w : World F D) (watched advancing : Bool) (now : DateTime)
      (items : List (PositionSnapshot D)) (previous : Dict D) (delta : Option (Dict D))
      (wall mono : ℕ)
      → IfKnown
          (compare_with c w watched advancing now items previous delta wall mono)
          (λ q. Untouched w q.0)
  compared-Untouched w watched advancing now items previous none wall mono = tt
  compared-Untouched w watched advancing now items previous (some delta) wall mono =
      Untouched-trans w _ _ (checked-Untouched c w watched _ wall mono)
        (advance-Untouched c _ advancing now items)

  against-Untouched :
      (w : World F D) (watched advancing : Bool) (now : DateTime)
      (items : List (PositionSnapshot D)) (baseline : Option (Option (DateTime × Dict D)))
      (wall mono : ℕ)
      → IfKnown (against c w watched advancing now items baseline wall mono) (λ q. Untouched w q.0)
  unfolding save_positions_snapshot
  against-Untouched w watched advancing now items none wall mono = tt
  against-Untouched w watched advancing now items (some none) wall mono =
      untouched w _ refl refl refl refl refl
  against-Untouched w watched advancing now items (some (some (ts, previous))) wall mono =
      compared-Untouched w watched advancing now items previous (submitted_qty_since c w.db ts) wall
        mono

module _ {F D : Type 0} ⦃m : Numeric F⦄ ⦃n : Numeric D⦄ where
  reconciled-Untouched :
      (w : World F D) (used : D) (h : Holdings D) (out : Option (World F D × ReconcileReport D))
      → IfKnown out (λ q. Untouched w q.0)
      → Untouched w (reconciled w used h out).0
  reconciled-Untouched w used h none u = Untouched-refl w
  reconciled-Untouched w used h (some (w', r)) u = u

  prepared-Untouched :
      (e : TickEnv F D) (w : World F D) (used : Option D) (h : Option (Holdings D))
      → Untouched w (prepare_with e w used h).0
  unfolding reconcile_and_enforce
  prepared-Untouched e w none h = Untouched-refl w
  prepared-Untouched e w (some used) none = Untouched-refl w
  prepared-Untouched e w (some used) (some h) = reconciled-Untouched w used h _ (
      against-Untouched e.columns w true true e.now (snapshot_from_holdings h)
        (load_latest_positions e.columns w.db) e.wall e.mono)

  pub prepare-Untouched :
      (e : TickEnv F D) (w : World F D) (toss : Toss D) → Untouched w (prepare e w toss).0
  unfolding prepare
  prepare-Untouched e w toss =
      first_if e.has_repo w _ _
        (prepared-Untouched e w (buy_notional_today e.columns w.db (trade_date_kst e.now))
          toss.get_holdings)
        (Untouched-refl w)

  opened-Untouched :
      (e : TickEnv F D) (w : World F D) (book : Option (Option (PaperPortfolio D)))
      → Untouched w (set_up e (opened_book e w book)).0
  unfolding save_paper audit
  opened-Untouched e w none = Untouched-refl w
  opened-Untouched e w (some none) = untouched w _ refl refl refl refl refl
  opened-Untouched e w (some (some p)) = Untouched-refl w

  pub open_paper-Untouched : (e : TickEnv F D) (w : World F D) → Untouched w (open_paper e w).0
  unfolding open_paper
  open_paper-Untouched e w =
      first_if (paper_on e w) w _ _ (opened-Untouched e w (load_paper e.columns w.db))
        (Untouched-refl w)
