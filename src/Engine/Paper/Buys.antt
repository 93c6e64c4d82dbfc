-- ===== src/Engine/Paper/Buys.antt =====
-- What a buy does to the book.
use auto_trade_stock_demo.Prelude.{
  String, true, false, Option, none, some, ◌≡◌, inl, inr, refl, ap, ◌∙◌, arith, lookup,
  lookup-insert, ◌==◌, eq_iff, Option-cases, Bool-cases,
}
use auto_trade_stock_demo.Numeric.{Numeric, ◌-◌, ◌<=◌, neg}
use auto_trade_stock_demo.Clock.{DateTime}
use auto_trade_stock_demo.Orders.Models.{OrderRequest, buy}
use auto_trade_stock_demo.Engine.Costs.{CostConfig}
use auto_trade_stock_demo.Engine.Paper.Fills.{Filled}
use auto_trade_stock_demo.Engine.Paper.{
  PaperPortfolio, PaperPosition, PaperFill, apply_fill, fill_buy, bought, buy_total,
}

module _ {D : Type 0} ⦃n : Numeric D⦄ where
  -- The opening date of a position after a buy: the old one if the symbol was held.
  abbrev pub opened_after : Option (PaperPosition D) → Option DateTime → Option DateTime
  opened_after none now = now
  opened_after (some pos) now = pos.opened_at

  bought-opened_at :
      (found : Option (PaperPosition D)) (q t : D) (now : Option DateTime)
      → (bought found q t now).opened_at ≡ opened_after found now
  unfolding bought
  bought-opened_at none q t now = refl
  bought-opened_at (some pos) q t now = refl

  -- What a buy that took place did to the book `p`.
  abbrev pub BoughtInto :
      PaperPortfolio D → String → Option DateTime → PaperPortfolio D → PaperFill D → Type 0
  BoughtInto p a now p' f =
      (total : D) × (pos : PaperPosition D) × (lookup a p'.positions ≡ some pos)
      × (pos.opened_at ≡ opened_after (lookup a p.positions) now)
      × ((total <= p.cash) ≡ true)
      × (p'.cash ≡ p.cash - total)
      × (f.cash_delta ≡ neg total)
      × (p'.realized_cum ≡ p.realized_cum)
      × (p'.trade_count ≡ p.trade_count)

  buy_bought :
      (p : PaperPortfolio D) (a : String) (q x : D) (cost : CostConfig D) (now : Option DateTime)
      → (fill_buy p a q x cost now).1.skipped ≡ none
      → BoughtInto p a now (fill_buy p a q x cost now).0 (fill_buy p a q x cost now).1
  unfolding fill_buy
  buy_bought p a q x cost now h = elim (Bool-cases (buy_total cost q x <= p.cash)) [
    | inr e ↦ absurd (skips e h)
    | inl e ↦
        let pos = bought (lookup a p.positions) q (buy_total cost q x) now in
        rw e (
          buy_total cost q x,
          pos,
          lookup-insert a a pos p.positions ∙ (rw (same a)),
          bought-opened_at (lookup a p.positions) q (buy_total cost q x) now,
          e,
          refl,
          refl,
          refl,
          refl,
        )
  ]
    where
      skips :
          (buy_total cost q x <= p.cash) ≡ false → (fill_buy p a q x cost now).1.skipped ≡ none → ⊥
      skips e h = ground arith

      same : (b : String) → (b == b) ≡ true
      same b = (eq_iff b b).1 refl

  buy_inverse :
      (p : PaperPortfolio D) (req : OrderRequest D) (cost : CostConfig D) (now : Option DateTime)
      (f : PaperFill D)
      → req.side ≡ buy
      → (apply_fill p req cost now).1 ≡ some f
      → (q : D) × (x : D) × ((fill_buy p req.symbol q x cost now).1 ≡ f)
        × ((apply_fill p req cost now).0 ≡ (fill_buy p req.symbol q x cost now).0)
  unfolding apply_fill
  buy_inverse p req cost now f s h = elim (Option-cases req.price) [
    | inl e ↦ absurd (no_price e h)
    | inr (x, e) ↦ elim (Option-cases req.quantity) [
      | inl d ↦ absurd (no_quantity x e d h)
      | inr (q, d) ↦ (q, x, ground arith, ground arith)
    ]
  ]
    where
      no_price : req.price ≡ none → (apply_fill p req cost now).1 ≡ some f → ⊥
      no_price e h = ground arith

      no_quantity :
          (x : D)
          → req.price ≡ some x
          → req.quantity ≡ none
          → (apply_fill p req cost now).1 ≡ some f
          → ⊥
      no_quantity x e d h = ground arith

  -- A buy that took place cost no more than the cash and debited it, left the realized profit
  -- and the count of trades alone, and holds a position with the old date of opening, or the
  -- given one if it is new.
  pub apply_fill-buy :
      (p : PaperPortfolio D) (req : OrderRequest D) (cost : CostConfig D) (now : Option DateTime)
      (f : PaperFill D)
      → req.side ≡ buy
      → Filled (apply_fill p req cost now).1 f
      → BoughtInto p req.symbol now (apply_fill p req cost now).0 f
  apply_fill-buy p req cost now f s (r, k) =
      let (q, x, e, d) = buy_inverse p req cost now f s r in
      rw (d, ← e) (buy_bought p req.symbol q x cost now (ap (λ (g : PaperFill D). g.skipped) e ∙ k))
