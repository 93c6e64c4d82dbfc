-- ===== src/Engine/Paper/Fills.antt =====
-- What one fill changes, and what it leaves alone.
use auto_trade_stock_demo.Prelude.{
  suc, String, true, false, Option, none, some, ◌≡◌, ◌≢◌, ◌⊎◌, inl, inr, refl, ap, ◌∙◌, arith, Dict,
  lookup, lookup-insert, lookup-erase, ◌==◌, eq_iff, Option-cases, Bool-cases, Message,
}
use auto_trade_stock_demo.Numeric.{Numeric, IsOrdered, le_refl, ◌+◌, ◌-◌, ◌<=◌, dec, min}
use auto_trade_stock_demo.Clock.{DateTime}
use auto_trade_stock_demo.Orders.Models.{OrderRequest, Side, buy, sell}
use auto_trade_stock_demo.Engine.Costs.{CostConfig}
use auto_trade_stock_demo.Engine.Paper.{
  PaperPortfolio, PaperPosition, PaperFill, apply_fill, fill_buy, fill_sell, fill_position,
  fill_held, bought, sold, fill_side, fill_priced, buy_total,
}

module _ {D : Type 0} ⦃n : Numeric D⦄ where
  -- A fill that took place.
  abbrev pub Filled : Option (PaperFill D) → PaperFill D → Type 0
  Filled r f = (r ≡ some f) × (f.skipped ≡ none)

  -- No fill, or one that was skipped.
  abbrev pub Unfilled : Option (PaperFill D) → Type 0
  Unfilled r =
      (r ≡ none) ⊎ ((f : PaperFill D) × (why : Message D) × (r ≡ some f) × (f.skipped ≡ some why))

  buy_unfilled :
      (p : PaperPortfolio D) (symbol : String) (q x : D) (cost : CostConfig D)
      (now : Option DateTime) {why : Message D}
      → (fill_buy p symbol q x cost now).1.skipped ≡ some why
      → (fill_buy p symbol q x cost now).0 ≡ p
  unfolding fill_buy
  buy_unfilled p symbol q x cost now h = ground arith

  sell_unfilled :
      (p : PaperPortfolio D) (symbol : String) (q x : D) (cost : CostConfig D) {why : Message D}
      → (fill_sell p symbol q x cost).1.skipped ≡ some why
      → (fill_sell p symbol q x cost).0 ≡ p
  unfolding fill_sell fill_position fill_held
  sell_unfilled p symbol q x cost h = ground arith

  -- An order that is not filled, or is skipped, changes nothing.
  pub apply_fill-Unfilled :
      (p : PaperPortfolio D) (req : OrderRequest D) (cost : CostConfig D) (now : Option DateTime)
      → Unfilled (apply_fill p req cost now).1
      → (apply_fill p req cost now).0 ≡ p
  unfolding apply_fill
  apply_fill-Unfilled p req cost now h = elim (Option-cases req.price) [
    | inl e ↦ ground arith
    | inr (x, e) ↦ elim (Option-cases req.quantity) [
      | inl d ↦ ground arith
      | inr (q, d) ↦
          grind (arith, buy_unfilled p req.symbol q x cost now, sell_unfilled p req.symbol q x cost)
    ]
  ]

  -- What a sale that took place did to the book `p`, from the position that it found.
  abbrev pub SoldFrom :
      PaperPortfolio D → Option (PaperPosition D) → PaperPortfolio D → PaperFill D → Type 0
  SoldFrom p found p' f =
      (pos : PaperPosition D) × (r : D) × (found ≡ some pos)
      × ((f.quantity <= pos.quantity) ≡ true)
      × (f.realized ≡ some r)
      × (p'.cash ≡ p.cash + f.cash_delta)
      × (p'.realized_cum ≡ p.realized_cum + r)
      × (p'.trade_count ≡ suc p.trade_count)

  min_le : (o : IsOrdered D) (a b : D) → (min a b <= b) ≡ true
  min_le o a b = ground (arith, le_refl o b)

  position_sold :
      (p : PaperPortfolio D) (symbol : String) (found : Option (PaperPosition D)) (q x : D)
      (cost : CostConfig D)
      → IsOrdered D
      → (fill_position p symbol found q x cost).1.skipped ≡ none
      → SoldFrom p found
          (fill_position p symbol found q x cost).0
          (fill_position p symbol found q x cost).1
  unfolding fill_position fill_held
  position_sold p symbol none q x cost o h = cc
  position_sold p symbol (some pos) q x cost o h = elim (Bool-cases (pos.quantity <= dec 0)) [
    | inl e ↦ absurd (skips e h)
    | inr e ↦ rw e (pos, _, refl, min_le o q pos.quantity, refl, refl, refl, refl)
  ]
    where
      skips :
          (pos.quantity <= dec 0) ≡ true
          → (fill_position p symbol (some pos) q x cost).1.skipped ≡ none
          → ⊥
      skips e h = ground arith

  sell_inverse :
      (p : PaperPortfolio D) (req : OrderRequest D) (cost : CostConfig D) (now : Option DateTime)
      (f : PaperFill D)
      → req.side ≡ sell
      → (apply_fill p req cost now).1 ≡ some f
      → (q : D) × (x : D) × ((fill_sell p req.symbol q x cost).1 ≡ f)
        × ((apply_fill p req cost now).0 ≡ (fill_sell p req.symbol q x cost).0)
  unfolding apply_fill
  sell_inverse p req cost now f s h = elim (Option-cases req.price) [
    | inl e ↦ absurd (no_price e h)
    | inr (x, e) ↦ elim (Option-cases req.quantity) [
      | inl d ↦ absurd (no_quantity x e d h)
      | inr (q, d) ↦ (q, x, ground arith, ground arith)
    ]
  ]
    where
      no_price : req.price ≡ none → (apply_fill p req cost now).1 ≡ some f → ⊥
      no_price e h = ground arith

      no_quantity :
          (x : D)
          → req.price ≡ some x
          → req.quantity ≡ none
          → (apply_fill p req cost now).1 ≡ some f
          → ⊥
      no_quantity x e d h = ground arith

  -- A sale that took place sold no more than the position held, and credited the cash, the
  -- realized profit and the count of trades.
  pub apply_fill-sell :
      (p : PaperPortfolio D) (req : OrderRequest D) (cost : CostConfig D) (now : Option DateTime)
      (f : PaperFill D)
      → IsOrdered D
      → req.side ≡ sell
      → Filled (apply_fill p req cost now).1 f
      → SoldFrom p (lookup req.symbol p.positions) (apply_fill p req cost now).0 f
  apply_fill-sell p req cost now f o s (r, k) =
      let (q, x, e, d) = sell_inverse p req cost now f s r in
      rw (d, ← e) (sold_by q x (ap (λ (g : PaperFill D). g.skipped) e ∙ k))
    where
      sold_by :
          (q x : D)
          → (fill_sell p req.symbol q x cost).1.skipped ≡ none
          → SoldFrom p
              (lookup req.symbol p.positions)
              (fill_sell p req.symbol q x cost).0
              (fill_sell p req.symbol q x cost).1
      sold_by q x h =
          unfold fill_sell in
          position_sold p req.symbol (lookup req.symbol p.positions) q x cost o h

  sold_others :
      (d : Dict (PaperPosition D)) (a b : String) (pos : PaperPosition D) (q : D)
      → (a == b) ≡ false
      → lookup b (sold d a pos q) ≡ lookup b d
  unfolding sold
  sold_others d a b pos q e =
      ground (
        arith,
        lookup-erase a b d,
        lookup-insert a b (record pos { quantity = pos.quantity - q }) d,
      )

  sell_others :
      (p : PaperPortfolio D) (a b : String) (q x : D) (cost : CostConfig D)
      → (a == b) ≡ false
      → lookup b (fill_sell p a q x cost).0.positions ≡ lookup b p.positions
  unfolding fill_sell fill_position fill_held
  sell_others p a b q x cost e = elim (Option-cases (lookup a p.positions)) [
    | inl h ↦ ground arith
    | inr (pos, h) ↦ ground (arith, sold_others p.positions a b pos (min q pos.quantity) e)
  ]

  buy_others :
      (p : PaperPortfolio D) (a b : String) (q x : D) (cost : CostConfig D) (now : Option DateTime)
      → (a == b) ≡ false
      → lookup b (fill_buy p a q x cost now).0.positions ≡ lookup b p.positions
  unfolding fill_buy
  buy_others p a b q x cost now e = ground (
    arith,
    lookup-insert a b (bought (lookup a p.positions) q (buy_total cost q x) now) p.positions,
  )

  side_others :
      (p : PaperPortfolio D) (side : Side) (a b : String) (q x : D) (cost : CostConfig D)
      (now : Option DateTime)
      → (a == b) ≡ false
      → lookup b (fill_side p side a q x cost now).0.positions ≡ lookup b p.positions
  side_others p buy a b q x cost now e = buy_others p a b q x cost now e
  side_others p sell a b q x cost now e = sell_others p a b q x cost e

  priced_others :
      (p : PaperPortfolio D) (req : OrderRequest D) (x q : Option D) (cost : CostConfig D)
      (now : Option DateTime) (b : String)
      → (req.symbol == b) ≡ false
      → lookup b (fill_priced p req x q cost now).0.positions ≡ lookup b p.positions
  priced_others p req none q cost now b e = refl
  priced_others p req (some x) none cost now b e = refl
  priced_others p req (some x) (some q) cost now b e =
      ground (arith, side_others p req.side req.symbol b q x cost now e)

  -- A fill leaves the positions of every other symbol as they were.
  pub apply_fill_others :
      (p : PaperPortfolio D) (req : OrderRequest D) (cost : CostConfig D) (now : Option DateTime)
      (b : String)
      → req.symbol ≢ b
      → lookup b (apply_fill p req cost now).0.positions ≡ lookup b p.positions
  unfolding apply_fill
  apply_fill_others p req cost now b h =
      priced_others p req req.price req.quantity cost now b (differ h)
    where
      differ : req.symbol ≢ b → (req.symbol == b) ≡ false
      differ h = ground (arith, eq_iff req.symbol b)
