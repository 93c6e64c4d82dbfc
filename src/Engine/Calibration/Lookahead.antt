-- ===== src/Engine/Calibration/Lookahead.antt =====
-- Closes up to the date of a decision do not enter its return.
use auto_trade_stock_demo.Prelude.{ℕ, List, [], ◌∷◌, ◌++◌, ◌≡◌, ◌≤◌, refl, arith}
use auto_trade_stock_demo.Numeric.{Numeric}
use auto_trade_stock_demo.Engine.Calibration.{after_date, forward_return}

module _ {F : Type 0} where
  -- All the closes are of the date or earlier.
  abbrev pub AllUpTo : ℕ → List (ℕ × F) → Type 0
  AllUpTo date [] = Unit
  AllUpTo date ((d, c) ∷ rest) = (d ≤ date) × AllUpTo date rest

  after_date-past :
      (date : ℕ) (past later : List (ℕ × F))
      → AllUpTo date past
      → after_date date (past ++ later) ≡ after_date date later
  unfolding after_date
  after_date-past date [] later h = refl
  after_date-past date ((d, c) ∷ past) later (p, h) =
      ground (arith, after_date-past date past later h)

pub forward_return_past :
    {F : Type 0} ⦃m : Numeric F⦄ (date horizon : ℕ) (price : F) (past later : List (ℕ × F))
    → AllUpTo date past
    → forward_return (past ++ later) date price horizon ≡ forward_return later date price horizon
unfolding forward_return
forward_return_past date horizon price past later h = rw (after_date-past date past later h) refl
