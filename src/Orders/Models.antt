-- ===== src/Orders/Models.antt =====
-- Order requests and results (server/app/orders/models.py).
use auto_trade_stock_demo.Prelude.{String, Bool, true, false, Option, none, some, Message}
use auto_trade_stock_demo.Numeric.{Numeric, ◌*◌}

pub data Side : Type 0 where
  buy sell : Side

pub data OrderType : Type 0 where
  limit market : OrderType

pub data TimeInForce : Type 0 where
  day cls : TimeInForce

pub data TradingMode : Type 0 where
  dry_run live : TradingMode

pub data OrderStatus : Type 0 where
  dry_run rejected submitted failed duplicate : OrderStatus

pub record OrderRequest (D : Type 0) : Type 0 where
  pub client_order_id : String
  pub symbol : String
  pub side : Side
  pub order_type : OrderType
  pub quantity : Option D
  pub price : Option D
  pub order_amount : Option D
  pub time_in_force : TimeInForce

-- The creation time of a result is left out.
pub record OrderResult (D : Type 0) : Type 0 where
  pub client_order_id : String
  pub status : OrderStatus
  pub mode : TradingMode
  pub request : OrderRequest D
  pub reason : Option (Message D)
  pub toss_order_id : Option String

-- `quantity * price`, where both are given.
unfoldable pub priced : {D : Type 0} ⦃n : Numeric D⦄ → Option D → Option D → Option D
priced (some q) (some p) = some (q * p)
priced (some q) none = none
priced none p = none

unfoldable pub notional_of :
    {D : Type 0} ⦃n : Numeric D⦄ → Option D → Option D → Option D → Option D
unfolding priced
notional_of (some a) q p = some a
notional_of none q p = priced q p

unfoldable pub estimated_notional : {D : Type 0} ⦃n : Numeric D⦄ → OrderRequest D → Option D
unfolding notional_of
estimated_notional o = notional_of o.order_amount o.quantity o.price

unfoldable pub is_submitted : OrderStatus → Bool
is_submitted submitted = true
is_submitted _ = false

unfoldable pub sent_to_market : {D : Type 0} → OrderResult D → Bool
unfolding is_submitted
sent_to_market r = is_submitted r.status
