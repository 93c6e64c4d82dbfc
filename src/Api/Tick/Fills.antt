-- ===== src/Api/Tick/Fills.antt =====
-- The simulated fills of a tick (server/app/api/tick.py): every intended order is filled in the
-- paper book, and the price of a fill marks a symbol that has no mark.
use auto_trade_stock_demo.Prelude.{
  String, Bool, true, false, Option, none, some, List, [], ◌∷◌, ◌++◌, Dict, lookup, is_some,
  if◌then◌else◌,
}
use auto_trade_stock_demo.Numeric.{Numeric}
use auto_trade_stock_demo.Clock.{DateTime}
use auto_trade_stock_demo.Orders.Models.{OrderResult, OrderStatus}
use auto_trade_stock_demo.Engine.Costs.{CostConfig}
use auto_trade_stock_demo.Engine.Paper.{PaperPortfolio, PaperFill, apply_fill}

abbrev pub is_intended : OrderStatus → Bool
is_intended OrderStatus.dry_run = true
is_intended _ = false

-- `marks.setdefault(symbol, price)`
abbrev set_default : {D : Type 0} → String → D → Dict D → Dict D
set_default s a marks = if is_some (lookup s marks) then marks else marks ++ (s, a) ∷ []

abbrev mark_fill : {D : Type 0} → Option (PaperFill D) → String → Option D → Dict D → Dict D
mark_fill none s price marks = marks
mark_fill (some f) s none marks = marks
mark_fill (some f) s (some a) marks = if is_some f.skipped then marks else set_default s a marks

module _ {D : Type 0} ⦃n : Numeric D⦄ where
  unfoldable pub fill_one :
      CostConfig D
      → DateTime
      → OrderResult D
      → PaperPortfolio D
      → Dict D
      → PaperPortfolio D × Dict D
  fill_one cost now r p marks =
      let (p', f) = apply_fill p r.request cost (some now) in
      if is_intended r.status
      then (p', mark_fill f r.request.symbol r.request.price marks)
      else (p, marks)

  unfoldable pub fill_orders :
      CostConfig D
      → DateTime
      → List (OrderResult D)
      → PaperPortfolio D
      → Dict D
      → PaperPortfolio D × Dict D
  unfolding fill_one
  fill_orders cost now [] p marks = (p, marks)
  fill_orders cost now (r ∷ rs) p marks =
      let (p', marks') = fill_one cost now r p marks in fill_orders cost now rs p' marks'
