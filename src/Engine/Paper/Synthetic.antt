-- ===== src/Engine/Paper/Synthetic.antt =====
-- The holdings that a tick sees of the paper book (server/app/engine/paper.py,
-- to_synthetic_holdings), with the fields that the engine reads. `total` is the value of the
-- positions so far.
use auto_trade_stock_demo.Prelude.{
  String, true, Option, none, some, List, [], ◌∷◌, Dict, lookup, keys, sorted_set, contains, ◌≡◌,
  refl, ap, ◌||◌, ◌&&◌, ◌==◌, eq_iff, arith, contains-keys, contains-sorted_set, is_some, ◌∙◌,
  if◌then◌else◌,
}
use auto_trade_stock_demo.Numeric.{Numeric, ◌+◌, ◌-◌, ◌*◌, ◌/◌, ◌>◌, dec}
use auto_trade_stock_demo.Toss.{HoldingItem, Holdings}
use auto_trade_stock_demo.Engine.Paper.{PaperPosition, PaperPortfolio, mark}

module _ {D : Type 0} ⦃n : Numeric D⦄ where
  -- `pl / purchase if purchase > 0 else Decimal(0)`, for the gain over the purchase.
  abbrev gain_rate : D → D → D
  gain_rate value purchase = if purchase > dec 0 then (value - purchase) / purchase else dec 0

  unfoldable pub synthetic_item : String → PaperPosition D → Option D → HoldingItem D
  unfolding mark
  synthetic_item symbol pos m = record {
    symbol = symbol;
    name = symbol;
    currency = "KRW";
    quantity = pos.quantity;
    average_purchase_price = pos.avg_cost;
    rate = gain_rate (pos.quantity * mark m pos) (pos.quantity * pos.avg_cost);
  }

  abbrev put_item :
      String
      → Option (PaperPosition D)
      → Option D
      → List (HoldingItem D) × D
      → List (HoldingItem D) × D
  put_item s none m q = q
  put_item s (some pos) m q = (synthetic_item s pos m ∷ q.0, q.1)

  abbrev add_value : D → Option (PaperPosition D) → Option D → D
  add_value total none m = total
  add_value total (some pos) m = total + pos.quantity * mark m pos

  unfoldable pub synthetic_items :
      Dict (PaperPosition D) → Dict D → List String → D → List (HoldingItem D) × D
  unfolding synthetic_item mark
  synthetic_items positions marks [] total = ([], total)
  synthetic_items positions marks (s ∷ ss) total =
      put_item s (lookup s positions) (lookup s marks)
        (synthetic_items positions marks ss (add_value total (lookup s positions) (lookup s marks)))

  unfoldable pub to_synthetic_holdings : PaperPortfolio D → Dict D → Holdings D
  unfolding synthetic_items
  to_synthetic_holdings p marks =
      let (items, total) =
        synthetic_items p.positions marks (sorted_set (keys p.positions)) (dec 0) in
      record { items = items; market_value_krw = total; daily_rate = none }

  -- The symbols, the quantities and the costs of the items.
  abbrev pub MatchesBook : Dict (PaperPosition D) → List (HoldingItem D) → Type 0
  MatchesBook positions [] = Unit
  MatchesBook positions (i ∷ is) =
      ((pos : PaperPosition D) × (lookup i.symbol positions ≡ some pos)
        × (i.quantity ≡ pos.quantity)
        × (i.average_purchase_price ≡ pos.avg_cost))
      × MatchesBook positions is

  abbrev pub item_symbols : List (HoldingItem D) → List String
  item_symbols [] = []
  item_symbols (i ∷ is) = i.symbol ∷ item_symbols is

  put_item_matches :
      (positions : Dict (PaperPosition D)) (s : String) (o : Option (PaperPosition D))
      (m : Option D) (q : List (HoldingItem D) × D)
      → lookup s positions ≡ o
      → MatchesBook positions q.0
      → MatchesBook positions (put_item s o m q).0
  unfolding synthetic_item
  put_item_matches positions s none m q e h = h
  put_item_matches positions s (some pos) m q e h = ((pos, e, refl, refl), h)

  items_match :
      (positions : Dict (PaperPosition D)) (marks : Dict D) (ss : List String) (total : D)
      → MatchesBook positions (synthetic_items positions marks ss total).0
  unfolding synthetic_items
  items_match positions marks [] total = tt
  items_match positions marks (s ∷ ss) total =
      put_item_matches positions s (lookup s positions) (lookup s marks)
        (synthetic_items positions marks ss (add_value total (lookup s positions) (lookup s marks)))
        refl
        (items_match positions marks ss (add_value total (lookup s positions) (lookup s marks)))

  contains-put_item :
      (s t : String) (o : Option (PaperPosition D)) (m : Option D) (q : List (HoldingItem D) × D)
      → contains (item_symbols (put_item s o m q).0) t ≡ (
          if s == t
          then (is_some o || contains (item_symbols q.0) t)
          else contains (item_symbols q.0) t)
  unfolding synthetic_item contains
  contains-put_item s t none m q = ground arith
  contains-put_item s t (some pos) m q = ground arith

  same_lookup :
      (positions : Dict (PaperPosition D)) (s t : String)
      → (s == t) ≡ true
      → is_some (lookup s positions) ≡ is_some (lookup t positions)
  same_lookup positions s t h = ap (λ (u : String). is_some (lookup u positions)) ((eq_iff s t).0 h)

  contains-synthetic_items :
      (positions : Dict (PaperPosition D)) (marks : Dict D) (t : String) (ss : List String)
      (total : D)
      → contains (item_symbols (synthetic_items positions marks ss total).0) t
        ≡ (contains ss t && is_some (lookup t positions))
  unfolding synthetic_items contains
  contains-synthetic_items positions marks t [] total = refl
  contains-synthetic_items positions marks t (s ∷ ss) total =
      contains-put_item s t (lookup s positions) (lookup s marks)
        (synthetic_items positions marks ss (add_value total (lookup s positions) (lookup s marks)))
      ∙ ground (
        arith,
        contains-synthetic_items positions marks t ss
            (add_value total (lookup s positions) (lookup s marks)),
        same_lookup positions s t,
      )

  -- The holdings that a tick sees of a paper book are its positions: every item has the
  -- quantity and the cost of the position of its symbol, and a symbol has an item exactly if
  -- the book holds it.
  pub to_synthetic_holdings-MatchesBook :
      (p : PaperPortfolio D) (marks : Dict D) (t : String)
      → MatchesBook p.positions (to_synthetic_holdings p marks).items
        × (contains (item_symbols (to_synthetic_holdings p marks).items) t
            ≡ is_some (lookup t p.positions))
  unfolding to_synthetic_holdings
  to_synthetic_holdings-MatchesBook p marks t = (
    items_match p.positions marks (sorted_set (keys p.positions)) (dec 0),
    contains-synthetic_items p.positions marks t (sorted_set (keys p.positions)) (dec 0)
        ∙ ground (arith, contains-sorted_set (keys p.positions) t, contains-keys p.positions t),
  )
