-- ===== src/Engine/Paper/Book.antt =====
-- The invariant of the paper book: no debt, and no position that is empty or short.
use auto_trade_stock_demo.Prelude.{
  String, true, not, Option, none, some, ◌≡◌, inl, inr, refl, ap, arith, Dict, lookup, insert,
  erase, lookup-insert, lookup-erase, Bool-cases,
}
use auto_trade_stock_demo.Numeric.{
  Numeric, IsOrdered, IsRounded, le_refl, ◌-◌, ◌<=◌, ◌>◌, ◌=?◌, dec, min,
}
use auto_trade_stock_demo.Clock.{DateTime}
use auto_trade_stock_demo.Orders.Models.{OrderRequest, Side, buy, sell}
use auto_trade_stock_demo.Engine.Costs.{CostConfig}
use auto_trade_stock_demo.Engine.Paper.{
  PaperPortfolio, PaperPosition, apply_fill, fill_buy, fill_sell, fill_position, fill_held, bought,
  sold, sell_proceeds, buy_total, fill_side, fill_priced,
}

module _ {D : Type 0} ⦃n : Numeric D⦄ where
  -- Every position that is found has a quantity above zero.
  abbrev pub AllHeld : Dict (PaperPosition D) → Type 0
  AllHeld d =
      (a : String) (pos : PaperPosition D) → lookup a d ≡ some pos → (pos.quantity > dec 0) ≡ true

  pub record IsSolvent (p : PaperPortfolio D) : Type 0 where
    pub no_debt : (dec 0 <= p.cash) ≡ true
    pub all_held : AllHeld p.positions

  -- Slippage and fees never turn a price or a payment negative.
  pub record IsSane (cost : CostConfig D) : Type 0 where
    pub sale_price : (dec 0 <= dec 1 - cost.slippage_rate) ≡ true
    pub sale_net : (dec 0 <= dec 1 - cost.commission_rate - cost.sell_tax_rate) ≡ true

  insert-AllHeld :
      (a : String) (pos : PaperPosition D) (d : Dict (PaperPosition D))
      → AllHeld d
      → (pos.quantity > dec 0) ≡ true
      → AllHeld (insert a pos d)
  insert-AllHeld a pos d h q b v e = ground (arith, lookup-insert a b pos d, h b v)

  erase-AllHeld : (a : String) (d : Dict (PaperPosition D)) → AllHeld d → AllHeld (erase a d)
  erase-AllHeld a d h b v e = ground (arith, lookup-erase a b d, h b v)

  bought_positive :
      (r : IsRounded D) (found : Option (PaperPosition D)) (q t : D) (now : Option DateTime)
      → ((pos : PaperPosition D) → found ≡ some pos → (pos.quantity > dec 0) ≡ true)
      → (q > dec 0) ≡ true
      → ((bought found q t now).quantity > dec 0) ≡ true
  unfolding bought
  bought_positive r none q t now h k = k
  bought_positive r (some pos) q t now h k = r.add_pos pos.quantity q (h pos refl) k

  buy-IsSolvent :
      (o : IsOrdered D) (r : IsRounded D) (p : PaperPortfolio D) (a : String) (q x : D)
      (cost : CostConfig D) (now : Option DateTime)
      → IsSolvent p
      → (q > dec 0) ≡ true
      → IsSolvent (fill_buy p a q x cost now).0
  unfolding fill_buy
  buy-IsSolvent o r p a q x cost now v k = elim (Bool-cases (buy_total cost q x <= p.cash)) [
    | inl e ↦ rw e (record {
      no_debt = r.sub_nonneg p.cash (buy_total cost q x) e;
      all_held =
          insert-AllHeld a _ p.positions v.all_held
            (bought_positive r (lookup a p.positions) q (buy_total cost q x) now (v.all_held a) k);
    })
    | inr e ↦ rw e v
  ]

  sold-AllHeld :
      (o : IsOrdered D) (r : IsRounded D) (d : Dict (PaperPosition D)) (a : String)
      (pos : PaperPosition D) (q : D)
      → AllHeld d
      → (q <= pos.quantity) ≡ true
      → AllHeld (sold d a pos q)
  unfolding sold
  sold-AllHeld o r d a pos q h k = elim (Bool-cases (pos.quantity - q =? dec 0)) [
    | inl e ↦ rw e (erase-AllHeld a d h)
    | inr e ↦ rw e (insert-AllHeld a _ d h (ground (arith, r.sub_nonneg pos.quantity q)))
  ]

  proceeds_nonneg :
      (r : IsRounded D) (cost : CostConfig D) (q x : D)
      → IsSane cost
      → (dec 0 <= q) ≡ true
      → (dec 0 <= x) ≡ true
      → (dec 0 <= sell_proceeds cost q x) ≡ true
  proceeds_nonneg r cost q x s k m =
      r.mul_nonneg _ _ (r.mul_nonneg _ _ k (r.mul_nonneg _ _ m s.sale_price)) s.sale_net

  le_of_pos : (o : IsOrdered D) (a : D) → (a > dec 0) ≡ true → (dec 0 <= a) ≡ true
  le_of_pos o a h = ground (arith, o.le_total a (dec 0))

  min_positive :
      (o : IsOrdered D) (a b : D)
      → (a > dec 0) ≡ true
      → (b > dec 0) ≡ true
      → ((min a b <= b) ≡ true) × ((dec 0 <= min a b) ≡ true)
  min_positive o a b p q = ground (arith, le_refl o b, le_of_pos o a, le_of_pos o b)

  held-IsSolvent :
      (o : IsOrdered D) (r : IsRounded D) (p : PaperPortfolio D) (a : String)
      (pos : PaperPosition D) (q x : D) (cost : CostConfig D)
      → IsSane cost
      → IsSolvent p
      → (q > dec 0) ≡ true
      → (pos.quantity > dec 0) ≡ true
      → (dec 0 <= x) ≡ true
      → IsSolvent (fill_held p a pos q x cost).0
  unfolding fill_held
  held-IsSolvent o r p a pos q x cost s v k h m =
      let (le, nonneg) = min_positive o q pos.quantity k h in
      record {
        no_debt =
            r.add_nonneg p.cash _ v.no_debt
              (proceeds_nonneg r cost (min q pos.quantity) x s nonneg m);
        all_held = sold-AllHeld o r p.positions a pos (min q pos.quantity) v.all_held le;
      }

  sell-IsSolvent :
      (o : IsOrdered D) (r : IsRounded D) (p : PaperPortfolio D) (a : String)
      (found : Option (PaperPosition D)) (q x : D) (cost : CostConfig D)
      → IsSane cost
      → IsSolvent p
      → (q > dec 0) ≡ true
      → (dec 0 <= x) ≡ true
      → IsSolvent (fill_position p a found q x cost).0
  unfolding fill_position
  sell-IsSolvent o r p a none q x cost s v k m = v
  sell-IsSolvent o r p a (some pos) q x cost s v k m = elim (Bool-cases (pos.quantity <= dec 0)) [
    | inl e ↦ rw e v
    | inr e ↦ rw e (held-IsSolvent o r p a pos q x cost s v k (ap not e) m)
  ]

  fill-IsSolvent :
      (o : IsOrdered D) (r : IsRounded D) (p : PaperPortfolio D) (side : Side) (a : String)
      (q x : D) (cost : CostConfig D) (now : Option DateTime)
      → IsSane cost
      → IsSolvent p
      → (q > dec 0) ≡ true
      → (dec 0 <= x) ≡ true
      → IsSolvent (fill_side p side a q x cost now).0
  unfolding fill_sell
  fill-IsSolvent o r p buy a q x cost now s v k m = buy-IsSolvent o r p a q x cost now v k
  fill-IsSolvent o r p sell a q x cost now s v k m =
      sell-IsSolvent o r p a (lookup a p.positions) q x cost s v k m

  priced-IsSolvent :
      (o : IsOrdered D) (r : IsRounded D) (p : PaperPortfolio D) (req : OrderRequest D)
      (x q : Option D) (cost : CostConfig D) (now : Option DateTime)
      → IsSane cost
      → IsSolvent p
      → ((v : D) → x ≡ some v → (dec 0 <= v) ≡ true)
      → IsSolvent (fill_priced p req x q cost now).0
  priced-IsSolvent o r p req none q cost now s v h = v
  priced-IsSolvent o r p req (some x) none cost now s v h = v
  priced-IsSolvent o r p req (some x) (some q) cost now s v h = elim (Bool-cases (q <= dec 0)) [
    | inl e ↦ rw e v
    | inr e ↦ rw e (fill-IsSolvent o r p req.side req.symbol q x cost now s v (ap not e) (h x refl))
  ]

  -- A fill at a price that is not negative, under sane cost rates, keeps the paper book
  -- solvent: the cash does not go below zero and every position has a positive quantity.
  pub apply_fill-IsSolvent :
      (p : PaperPortfolio D) (req : OrderRequest D) (cost : CostConfig D) (now : Option DateTime)
      → IsOrdered D
      → IsRounded D
      → IsSane cost
      → ((v : D) → req.price ≡ some v → (dec 0 <= v) ≡ true)
      → IsSolvent p
      → IsSolvent (apply_fill p req cost now).0
  unfolding apply_fill
  apply_fill-IsSolvent p req cost now o r s h v =
      priced-IsSolvent o r p req req.price req.quantity cost now s v h
