-- ===== src/Engine/Paper.antt =====
-- The paper portfolio (server/app/engine/paper.py): simulated fills of intended orders.
pub mod Book
pub mod Synthetic
pub mod Buys
pub mod Fills
use auto_trade_stock_demo.Prelude.{
  ℕ, suc, String, Bool, true, false, not, Option, none, some, List, [], ◌∷◌, Dict, lookup, insert,
  erase, sorted_set, keys, Message, Part, if◌then◌else◌,
}
use auto_trade_stock_demo.Numeric.{
  Numeric, ◌+◌, ◌-◌, ◌*◌, ◌/◌, neg, ◌<=◌, ◌>◌, ◌=?◌, dec, min, truthy,
}
use auto_trade_stock_demo.Clock.{DateTime}
use auto_trade_stock_demo.Orders.Models.{OrderRequest, Side, buy, sell}
use auto_trade_stock_demo.Engine.Costs.{CostConfig}

pub record PaperPosition (D : Type 0) : Type 0 where
  pub quantity : D
  pub avg_cost : D
  pub opened_at : Option DateTime

pub record PaperFill (D : Type 0) : Type 0 where
  pub symbol : String
  pub side : Side
  pub quantity : D
  pub fill_price : D
  pub cash_delta : D
  pub realized : Option D
  pub skipped : Option (Message D)

pub record PaperPortfolio (D : Type 0) : Type 0 where
  pub cash : D
  pub positions : Dict (PaperPosition D)
  pub realized_cum : D
  pub trade_count : ℕ

module _ {D : Type 0} ⦃n : Numeric D⦄ where
  -- The position after a buy: a new one, or the weighted cost with the old date of opening.
  unfoldable pub bought : Option (PaperPosition D) → D → D → Option DateTime → PaperPosition D
  bought none qty total_cost now = record {
    quantity = qty;
    avg_cost = total_cost / qty;
    opened_at = now;
  }
  bought (some pos) qty total_cost now =
      let new_qty = pos.quantity + qty in
      record pos {
        avg_cost = (pos.quantity * pos.avg_cost + total_cost) / new_qty;
        quantity = new_qty;
      }

  abbrev pub buy_price : CostConfig D → D → D
  buy_price cost price = price * (dec 1 + cost.slippage_rate)

  abbrev pub buy_total : CostConfig D → D → D → D
  buy_total cost qty price = qty * buy_price cost price * (dec 1 + cost.commission_rate)

  unfoldable pub fill_buy :
      PaperPortfolio D
      → String
      → D
      → D
      → CostConfig D
      → Option DateTime
      → PaperPortfolio D × PaperFill D
  fill_buy p symbol qty price cost now =
      let total_cost = buy_total cost qty price in
      let fill_price = buy_price cost price in
      if total_cost > p.cash
      then (
        p,
        record {
          symbol = symbol;
          side = buy;
          quantity = qty;
          fill_price = fill_price;
          cash_delta = dec 0;
          realized = none;
          skipped = some (
              Part.lit "현금 부족("
              ∷ Part.num total_cost
              ∷ Part.lit " > "
              ∷ Part.num p.cash
              ∷ Part.lit ")"
              ∷ []);
        },
      )
      else (
        record p {
          cash = p.cash - total_cost;
          positions =
              insert symbol (bought (lookup symbol p.positions) qty total_cost now) p.positions;
        },
        record {
          symbol = symbol;
          side = buy;
          quantity = qty;
          fill_price = fill_price;
          cash_delta = neg total_cost;
          realized = none;
          skipped = none;
        },
      )

  abbrev pub sell_price : CostConfig D → D → D
  sell_price cost price = price * (dec 1 - cost.slippage_rate)

  abbrev pub sell_proceeds : CostConfig D → D → D → D
  sell_proceeds cost qty price =
      qty * sell_price cost price * (dec 1 - cost.commission_rate - cost.sell_tax_rate)

  -- A sale that finds no position.
  abbrev pub unheld : String → D → D → PaperFill D
  unheld symbol qty price = record {
    symbol = symbol;
    side = sell;
    quantity = qty;
    fill_price = price;
    cash_delta = dec 0;
    realized = none;
    skipped = some (Part.lit "페이퍼 미보유" ∷ []);
  }

  -- The positions after a sale of `qty`: an emptied one is deleted.
  unfoldable pub sold :
      Dict (PaperPosition D) → String → PaperPosition D → D → Dict (PaperPosition D)
  sold positions symbol pos qty =
      let left = pos.quantity - qty in
      if left =? dec 0
      then erase symbol positions
      else insert symbol (record pos { quantity = left }) positions

  unfoldable pub fill_held :
      PaperPortfolio D
      → String
      → PaperPosition D
      → D
      → D
      → CostConfig D
      → PaperPortfolio D × PaperFill D
  fill_held p symbol pos wanted price cost =
      let qty = min wanted pos.quantity in
      let proceeds = sell_proceeds cost qty price in
      let realized = proceeds - qty * pos.avg_cost in
      (
        record {
          cash = p.cash + proceeds;
          realized_cum = p.realized_cum + realized;
          trade_count = suc p.trade_count;
          positions = sold p.positions symbol pos qty;
        },
        record {
          symbol = symbol;
          side = sell;
          quantity = qty;
          fill_price = sell_price cost price;
          cash_delta = proceeds;
          realized = some realized;
          skipped = none;
        },
      )

  unfoldable pub fill_position :
      PaperPortfolio D
      → String
      → Option (PaperPosition D)
      → D
      → D
      → CostConfig D
      → PaperPortfolio D × PaperFill D
  fill_position p symbol none qty price cost = (p, unheld symbol qty price)
  fill_position p symbol (some pos) qty price cost =
      if pos.quantity <= dec 0
      then (p, unheld symbol qty price)
      else fill_held p symbol pos qty price cost

  unfoldable pub fill_sell :
      PaperPortfolio D → String → D → D → CostConfig D → PaperPortfolio D × PaperFill D
  fill_sell p symbol qty price cost =
      fill_position p symbol (lookup symbol p.positions) qty price cost

  abbrev pub fill_side :
      PaperPortfolio D
      → Side
      → String
      → D
      → D
      → CostConfig D
      → Option DateTime
      → PaperPortfolio D × PaperFill D
  fill_side p buy symbol qty price cost now = fill_buy p symbol qty price cost now
  fill_side p sell symbol qty price cost now = fill_sell p symbol qty price cost

  abbrev pub fill_priced :
      PaperPortfolio D
      → OrderRequest D
      → Option D
      → Option D
      → CostConfig D
      → Option DateTime
      → PaperPortfolio D × Option (PaperFill D)
  fill_priced p req none qty cost now = (p, none)
  fill_priced p req (some price) none cost now = (p, none)
  fill_priced p req (some price) (some qty) cost now =
      if qty <= dec 0
      then (p, none)
      else let (p', f) = fill_side p req.side req.symbol qty price cost now in (p', some f)

  -- `apply_fill(req, cost, now)`
  unfoldable pub apply_fill :
      PaperPortfolio D
      → OrderRequest D
      → CostConfig D
      → Option DateTime
      → PaperPortfolio D × Option (PaperFill D)
  apply_fill p req cost now = fill_priced p req req.price req.quantity cost now

  -- `marks.get(symbol) or avg_cost`
  unfoldable pub mark : Option D → PaperPosition D → D
  mark none pos = pos.avg_cost
  mark (some m) pos = if truthy m then m else pos.avg_cost

  unfoldable pub positions_value : Dict (PaperPosition D) → Dict D → D → D
  unfolding mark
  positions_value [] marks acc = acc
  positions_value ((s, pos) ∷ rest) marks acc =
      positions_value rest marks (acc + pos.quantity * mark (lookup s marks) pos)

  -- `mark_equity(marks)`: the total, and the value of the positions.
  unfoldable pub mark_equity : PaperPortfolio D → Dict D → D × D
  unfolding positions_value
  mark_equity p marks = let v = positions_value p.positions marks (dec 0) in (p.cash + v, v)
