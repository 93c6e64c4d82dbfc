-- ===== src/Engine/Exits.antt =====
-- Forced exits (server/app/engine/exits.py): the stop loss and the time stop, past the judge.
pub mod Decision
use auto_trade_stock_demo.Prelude.{
  ℕ, String, Bool, true, false, not, ◌||◌, Option, none, some, List, [], ◌∷◌, Dict, lookup, keys,
  sorted_set, ltb, Message, Part, if◌then◌else◌,
}
use auto_trade_stock_demo.Numeric.{Numeric, ◌-◌, ◌*◌, ◌/◌, neg, ◌<=◌, dec, lit}
use auto_trade_stock_demo.Engine.Paper.{PaperPosition}

pub record ExitConfig (D : Type 0) : Type 0 where
  pub stop_loss_rate : D
  pub time_stop_days : ℕ
  pub enabled : Bool

pub record ForcedExit (D : Type 0) : Type 0 where
  pub symbol : String
  pub reason : Message D

-- The first of the two that is given.
abbrev pub first_of_two {ℓ} : {A : Type ℓ} → Option A → Option A → Option A
first_of_two none b = b
first_of_two (some a) b = some a

module _ {D : Type 0} ⦃n : Numeric D⦄ where
  unfoldable pub default_exits : ExitConfig D
  default_exits = record { stop_loss_rate = lit 8 2; time_stop_days = 20; enabled = true }

  -- The loss against the cost, where there is a mark.
  abbrev pub loss_of : PaperPosition D → D → D
  loss_of pos m = (m - pos.avg_cost) / pos.avg_cost

  unfoldable pub stop_loss :
      ExitConfig D → String → PaperPosition D → Option D → Option (ForcedExit D)
  stop_loss cfg symbol pos none = none
  stop_loss cfg symbol pos (some m) =
      let loss = loss_of pos m in
      if loss <= neg cfg.stop_loss_rate
      then some (record {
        symbol = symbol;
        reason =
            Part.lit "손절 "
            ∷ Part.fmt ".1f" (loss * dec 100)
            ∷ Part.lit "% ≤ -"
            ∷ Part.fmt ".1f" (cfg.stop_loss_rate * dec 100)
            ∷ Part.lit "%"
            ∷ [];
      })
      else none

  unfoldable pub time_stop : ExitConfig D → String → Option ℕ → Option (ForcedExit D)
  time_stop cfg symbol none = none
  time_stop cfg symbol (some held) =
      if ltb cfg.time_stop_days held
      then some (record {
        symbol = symbol;
        reason =
            Part.lit "타임스톱 " ∷ Part.nat held ∷ Part.lit "거래일 > " ∷ Part.nat cfg.time_stop_days ∷ [];
      })
      else none

  -- The decision on one position.
  unfoldable pub exit_position :
      ExitConfig D → String → PaperPosition D → Option D → Option ℕ → Option (ForcedExit D)
  exit_position cfg symbol pos m held =
      if (pos.quantity <= dec 0) || (pos.avg_cost <= dec 0)
      then none
      else first_of_two (stop_loss cfg symbol pos m) (time_stop cfg symbol held)

  abbrev exit_lookup :
      ExitConfig D → String → Option (PaperPosition D) → Option D → Option ℕ → Option (ForcedExit D)
  exit_lookup cfg symbol none m held = none
  exit_lookup cfg symbol (some pos) m held = exit_position cfg symbol pos m held

  -- The decision on one symbol of the book.
  unfoldable pub exit_symbol :
      Dict (PaperPosition D) → Dict D → Dict ℕ → ExitConfig D → String → Option (ForcedExit D)
  exit_symbol positions marks days_held cfg symbol =
      exit_lookup cfg symbol (lookup symbol positions) (lookup symbol marks)
        (lookup symbol days_held)

  abbrev add_exit : Option (ForcedExit D) → List (ForcedExit D) → List (ForcedExit D)
  add_exit none rest = rest
  add_exit (some f) rest = f ∷ rest

  unfoldable pub exits_of :
      Dict (PaperPosition D) → Dict D → Dict ℕ → ExitConfig D → List String → List (ForcedExit D)
  exits_of positions marks days_held cfg [] = []
  exits_of positions marks days_held cfg (s ∷ ss) =
      add_exit (exit_symbol positions marks days_held cfg s)
        (exits_of positions marks days_held cfg ss)

  unfoldable pub evaluate_exits :
      Dict (PaperPosition D) → Dict D → Dict ℕ → ExitConfig D → List (ForcedExit D)
  evaluate_exits positions marks days_held cfg =
      if not cfg.enabled
      then []
      else exits_of positions marks days_held cfg (sorted_set (keys positions))
