-- ===== src/Examples/Engines.antt =====
-- The theorems on the engine at concrete inputs.
use auto_trade_stock_demo.Prelude.{
  true, none, some, List, [], ◌∷◌, ◌≡◌, ◌↔◌, refl, arith, lookup, contains, map,
}
use auto_trade_stock_demo.Numeric.{◌<=◌, dec, lit}
use auto_trade_stock_demo.Orders.Models.{OrderRequest, OrderType, Side, TimeInForce}
use auto_trade_stock_demo.Engine.Costs.{Floats, CostConfig}
use auto_trade_stock_demo.Engine.Regime.{RegimeConfig}
use auto_trade_stock_demo.Engine.Exits.{ExitConfig, evaluate_exits}
use auto_trade_stock_demo.Engine.Exits.Decision.{MustExit, evaluate_exits_iff}
use auto_trade_stock_demo.Engine.Paper.{PaperPortfolio, PaperPosition, apply_fill}
use auto_trade_stock_demo.Engine.Paper.Book.{IsSolvent, IsSane, apply_fill-IsSolvent}
use auto_trade_stock_demo.Examples.Fixed.{Fixed, fixed_numeric, fixed-IsOrdered, fixed-IsRounded}

abbrev floats : Floats Fixed Fixed
floats = record { stdev = λ xs. lit 2 2; decimal_of = λ a. a; float_of = λ a. a }

abbrev closes : List Fixed
closes = dec 100 ∷ dec 104 ∷ dec 102 ∷ dec 106 ∷ dec 103 ∷ dec 108 ∷ dec 110 ∷ []

abbrev costs : CostConfig Fixed
costs = record { commission_rate = lit 1 3; slippage_rate = lit 1 2; sell_tax_rate = lit 2 3 }

abbrev stages : RegimeConfig Fixed
stages = record {
  symbol = "069500";
  lookback = 5;
  calm_vol = lit 10 3;
  stress_vol = lit 20 3;
  elevated_multiplier = lit 5 1;
  stress_multiplier = dec 0;
}

abbrev exits : ExitConfig Fixed
exits = record { stop_loss_rate = lit 8 2; time_stop_days = 20; enabled = true }

abbrev held : PaperPosition Fixed
held = record { quantity = dec 5; avg_cost = dec 1000; opened_at = none }

abbrev a_book : PaperPortfolio Fixed
a_book = record {
  cash = dec 100000;
  positions = ("005930", held) ∷ [];
  realized_cum = dec 0;
  trade_count = 2;
}

evaluate_exits_iff_example :
    (contains
        (map (λ f. f.symbol) (evaluate_exits a_book.positions (("005930", dec 900) ∷ []) [] exits))
        "005930"
      ≡ true)
    ↔ ((true ≡ true) × MustExit a_book.positions (("005930", dec 900) ∷ []) [] exits "005930")
evaluate_exits_iff_example =
    evaluate_exits_iff a_book.positions (("005930", dec 900) ∷ []) [] exits "005930"

abbrev a_request : Side → OrderRequest Fixed
a_request side = record {
  client_order_id = "id-1";
  symbol = "005930";
  side = side;
  order_type = OrderType.limit;
  quantity = some (dec 8);
  price = some (dec 1200);
  order_amount = none;
  time_in_force = TimeInForce.day;
}

costs-IsSane : IsSane {D = Fixed} costs
costs-IsSane = record { sale_price = refl; sale_net = refl }

a_book-IsSolvent : IsSolvent a_book
unfolding lookup
a_book-IsSolvent = record { no_debt = refl; all_held = λ a p h. ground arith }

apply_fill-IsSolvent_example : IsSolvent (apply_fill a_book (a_request Side.buy) costs none).0
apply_fill-IsSolvent_example =
    apply_fill-IsSolvent a_book (a_request Side.buy) costs none fixed-IsOrdered fixed-IsRounded
      costs-IsSane (λ v h. price_nonneg v h) a_book-IsSolvent
  where
    price_nonneg : (v : Fixed) → some (dec 1200) ≡ some v → (dec 0 <= v) ≡ true
    price_nonneg v h = ground arith
