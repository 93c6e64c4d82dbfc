-- ===== src/Toss.antt =====
-- The data of the broker that the server computes with (server/app/toss/models.py): candles, the
-- stock master and the holdings, with the fields that the engine and the order layer read. An
-- amount of a currency bucket stands for its `krw`.
pub mod Caching
pub mod Client
use auto_trade_stock_demo.Prelude.{String, Bool, Option, List}

pub record Candle (D : Type 0) : Type 0 where
  pub close_price : D
  pub volume : D

pub record KoreanMarketDetail : Type 0 where
  pub liquidation_trading : Bool
  pub krx_trading_suspended : Bool

pub record Stock (D : Type 0) : Type 0 where
  pub symbol : String
  pub name : String
  pub market : Option String
  pub security_type : Option String
  pub is_common_share : Option Bool
  pub status : Option String
  pub currency : Option String
  pub leverage_factor : Option D
  pub korean_market_detail : Option KoreanMarketDetail

pub record HoldingItem (D : Type 0) : Type 0 where
  pub symbol : String
  pub name : String
  pub currency : String
  pub quantity : D
  pub average_purchase_price : D
  pub rate : D

-- `market_value_krw` is `market_value.amount.krw`, and `daily_rate` is `daily_profit_loss.rate`.
pub record Holdings (D : Type 0) : Type 0 where
  pub items : List (HoldingItem D)
  pub market_value_krw : D
  pub daily_rate : Option D
