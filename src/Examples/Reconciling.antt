-- ===== src/Examples/Reconciling.antt =====
-- The theorems on reconciliation at concrete inputs.
use auto_trade_stock_demo.Prelude.{String, true, some, [], ◌∷◌, ◌≡◌, ◌↔◌, Dict}
use auto_trade_stock_demo.Numeric.{dec}
use auto_trade_stock_demo.Orders.Reconcile.{reconcile, is_ok}
use auto_trade_stock_demo.Orders.Reconcile.Verdict.{Known, Agrees, reconcile-ok_iff}
use auto_trade_stock_demo.Examples.Fixed.{Fixed, fixed_numeric}

abbrev snapshot : Dict Fixed
snapshot = ("005930", dec 10) ∷ ("000660", dec 2) ∷ []

abbrev sent : Dict Fixed
sent = ("005930", dec 5) ∷ []

abbrev broker : Dict Fixed
broker = ("005930", dec 15) ∷ ("035420", dec 1) ∷ []

reconcile-ok_iff_example :
    (is_ok (reconcile (some snapshot) broker (some sent)) ≡ true)
    ↔ ((a : String) → Known snapshot broker sent a → Agrees snapshot broker sent a)
reconcile-ok_iff_example = reconcile-ok_iff snapshot broker sent
