-- ===== src/Core/Settings.antt =====
-- The settings of the server (server/app/core/settings.py), with the defaults of the environment.
-- Those of the log format, the sandbox prices, the OIDC check, the news and the files are left out.
use auto_trade_stock_demo.Prelude.{ℕ, String, Bool, true, false, Option, none}
use auto_trade_stock_demo.Numeric.{Numeric, dec, lit}

pub record Settings (F D : Type 0) : Type 0 where
  pub app_env : String
  pub sandbox_mode : Bool
  pub db_schema : Option String
  pub api_key : String
  pub toss_client_id : Option String
  pub toss_client_secret : Option String
  pub anthropic_api_key : Option String
  pub research_top_n : ℕ
  pub judge_effort : String
  pub judge_top_n : ℕ
  pub daily_llm_decision_cap : ℕ
  pub research_cache_ttl_minutes : ℕ
  pub research_cache_held_ttl_minutes : ℕ
  pub tick_interval_sec : ℕ
  pub candle_cache_ttl_minutes : ℕ
  pub notify_telegram_bot_token : Option String
  pub notify_telegram_chat_id : Option String
  pub database_url : Option String
  pub paper_seed_krw : D
  pub exit_rules_enabled : Bool
  pub exit_stop_loss_rate : D
  pub exit_time_stop_days : ℕ
  pub watchlist : String
  pub symbol_source_path : Option String
  pub universe_max_symbols : ℕ
  pub adv_pool_size : ℕ
  pub universe_explore_ratio : F
  pub per_order_max_krw : D
  pub daily_buy_cap_krw : D
  pub max_positions : ℕ
  pub per_symbol_max_weight : D
  pub enforce_market_hours : Bool
  pub daily_loss_limit : D
  pub max_drawdown_limit : D
  pub drawdown_rearm : D
  pub cost_commission_rate : D
  pub cost_slippage_rate : D
  pub cost_sell_tax_rate : D
  pub entry_cost_multiple : D
  pub entry_move_multiple : D
  pub regime_symbol : String
  pub regime_calm_vol : D
  pub regime_stress_vol : D
  pub regime_elevated_multiplier : D
  pub regime_stress_multiplier : D

-- `Settings()` in an empty environment.
unfoldable pub default_settings : {F D : Type 0} ⦃m : Numeric F⦄ ⦃n : Numeric D⦄ → Settings F D
default_settings = record {
  app_env = "local";
  sandbox_mode = false;
  db_schema = none;
  api_key = "dev-local-key";
  toss_client_id = none;
  toss_client_secret = none;
  anthropic_api_key = none;
  research_top_n = 3;
  judge_effort = "medium";
  judge_top_n = 10;
  daily_llm_decision_cap = 400;
  research_cache_ttl_minutes = 1440;
  research_cache_held_ttl_minutes = 120;
  tick_interval_sec = 0;
  candle_cache_ttl_minutes = 60;
  notify_telegram_bot_token = none;
  notify_telegram_chat_id = none;
  database_url = none;
  paper_seed_krw = dec 10000000;
  exit_rules_enabled = true;
  exit_stop_loss_rate = lit 8 2;
  exit_time_stop_days = 20;
  watchlist = "";
  symbol_source_path = none;
  universe_max_symbols = 40;
  adv_pool_size = 300;
  universe_explore_ratio = lit 2 1;
  per_order_max_krw = dec 100000;
  daily_buy_cap_krw = dec 500000;
  max_positions = 10;
  per_symbol_max_weight = lit 10 2;
  enforce_market_hours = true;
  daily_loss_limit = lit 5 2;
  max_drawdown_limit = lit 15 2;
  drawdown_rearm = lit 8 2;
  cost_commission_rate = lit 15 5;
  cost_slippage_rate = lit 15 4;
  cost_sell_tax_rate = lit 15 4;
  entry_cost_multiple = lit 35 1;
  entry_move_multiple = lit 30 1;
  regime_symbol = "069500";
  regime_calm_vol = lit 10 3;
  regime_stress_vol = lit 20 3;
  regime_elevated_multiplier = lit 5 1;
  regime_stress_multiplier = dec 0;
}
