-- ===== src/Api/Startup.antt =====
-- The start of the process (server/app/main.py, lifespan): the checks that refuse to start, the
-- trading mode, the order service, and the state that the database restores. Logging, the HTTP
-- client and the sandbox are left out: only which broker is used is kept.
pub mod Modes
pub mod Restored
use Prim.Native.Char.{Char, code}
use Prim.Native.String.{String}
use auto_trade_stock_demo.Prelude.{
  ℕ, Bool, true, false, not, ◌&&◌, ◌||◌, Option, none, some, List, [], ◌∷◌, eqb, ltb, is_some, ◌==◌,
  if◌then◌else◌,
}
use auto_trade_stock_demo.Numeric.{Numeric}
use auto_trade_stock_demo.Core.Settings.{Settings}
use auto_trade_stock_demo.Orders.Models.{TradingMode}
use auto_trade_stock_demo.Orders.Guardrails.{GuardrailConfig, default_config}
use auto_trade_stock_demo.Orders.Breaker.{CircuitBreaker, CircuitBreakerConfig, fresh}
use auto_trade_stock_demo.Orders.Breaker.Persist.{Texts, StoredState, restore_state}
use auto_trade_stock_demo.Orders.Service.{OrderService, engage_kill_switch}
use auto_trade_stock_demo.Db.Rows.{Columns, Database}
use auto_trade_stock_demo.Db.Ledger.{has_text}
use auto_trade_stock_demo.Db.State.{load_engine_state}
use auto_trade_stock_demo.Api.Reconciling.{is_live}

-- `text.startswith(prefix)`
unfoldable pub starts_with : String → String → Bool
starts_with String.[] text = true
starts_with (String.◌∷◌ a prefix) String.[] = false
starts_with (String.◌∷◌ a prefix) (String.◌∷◌ b text) =
    let rest = starts_with prefix text in eqb (code a) (code b) && rest

-- `text or default`
abbrev pub text_given : Option String → String → String
text_given none default = default
text_given (some t) default = if t == "" then default else t

pub data Broker : Type 0 where
  sandbox client no_broker : Broker

pub record App (D : Type 0) : Type 0 where
  pub service : OrderService D
  pub has_repo : Bool
  pub broker : Broker
  pub has_notifier : Bool
  pub looping : Bool

-- A start is refused, fails with an exception while it restores the breaker, or succeeds.
pub data Startup (D : Type 0) : Type 0 where
  default_key_in_production sandbox_in_public : Startup D
  restore_failed : Startup D
  running : App D → Startup D

abbrev pub public_schema : Option String → Bool
public_schema s = text_given s "public" == "public"

module _ {F D : Type 0} where
  unfoldable pub refuses_key : Settings F D → Bool
  refuses_key st = st.app_env == "production" && st.api_key == "dev-local-key"

  unfoldable pub refuses_sandbox : Settings F D → Bool
  unfolding starts_with
  refuses_sandbox st =
      st.sandbox_mode
      && (starts_with "postgresql" (text_given st.database_url "") && public_schema st.db_schema)

  -- The trading mode after the two forced downgrades.
  unfoldable pub effective_mode : Settings F D → TradingMode → TradingMode
  effective_mode st TradingMode.dry_run = TradingMode.dry_run
  effective_mode st TradingMode.live =
      if not (has_text st.database_url)
      then TradingMode.dry_run
      else if st.sandbox_mode
      then TradingMode.dry_run
      else TradingMode.live

  unfoldable pub broker_of : Settings F D → Broker
  broker_of st =
      if st.sandbox_mode
      then sandbox
      else if has_text st.toss_client_id && has_text st.toss_client_secret
      then client
      else no_broker

  abbrev pub breaker_config : Settings F D → CircuitBreakerConfig D
  breaker_config st = record {
    daily_loss_limit = st.daily_loss_limit;
    max_drawdown_limit = st.max_drawdown_limit;
    rearm_drawdown = st.drawdown_rearm;
  }

-- The saved state has an entry.
abbrev pub has_entries : StoredState → Bool
has_entries b =
    is_some b.high_water_mark
    || (is_some b.drawdown
        || (is_some b.daily_halt_date || (is_some b.drawdown_halt || is_some b.today)))

module _ {D : Type 0} where
  abbrev pub with_breaker : OrderService D → CircuitBreaker D × Bool → Option (OrderService D)
  with_breaker s (b, true) = some (record s { circuit_breaker = b })
  with_breaker s (b, false) = none

  abbrev pub killed_if : Bool → OrderService D → OrderService D
  killed_if true s = engage_kill_switch s
  killed_if false s = s

  -- The service with the state of the database; `none` where the breaker cannot be read.
  unfoldable pub restore_service :
      Texts D → OrderService D → Option (Bool × StoredState) → Option (OrderService D)
  restore_service x s none = some s
  restore_service x s (some (kill, b)) =
      let s' = killed_if kill s in
      if has_entries b then with_breaker s' (restore_state x s'.circuit_breaker b) else some s'

module _ {F D : Type 0} ⦃n : Numeric D⦄ where
  abbrev pub guardrail_config : Settings F D → List ℕ → GuardrailConfig D
  guardrail_config st holidays = record default_config {
    per_order_max_krw = st.per_order_max_krw;
    daily_buy_cap_krw = st.daily_buy_cap_krw;
    max_positions = st.max_positions;
    per_symbol_max_weight = st.per_symbol_max_weight;
    enforce_market_hours = st.enforce_market_hours;
    holidays = holidays;
  }

  -- `OrderService(mode, config, circuit_breaker)`: with no executor and an empty memory.
  unfoldable pub new_service : Settings F D → TradingMode → List ℕ → OrderService D
  unfolding fresh
  new_service st mode holidays = record {
    mode = mode;
    config = guardrail_config st holidays;
    executor = none;
    kill_switch = false;
    circuit_breaker = fresh (breaker_config st);
    seen = [];
    ledger = [];
    placed = [];
    audited = [];
  }

  abbrev pub app_with : Settings F D → TradingMode → OrderService D → App D
  app_with st mode s = record {
    service = record s { mode = effective_mode st mode };
    has_repo = has_text st.database_url;
    broker = broker_of st;
    has_notifier = has_text st.notify_telegram_bot_token && has_text st.notify_telegram_chat_id;
    looping = ltb 0 st.tick_interval_sec;
  }

  abbrev pub app_of : Settings F D → TradingMode → Option (OrderService D) → Startup D
  app_of st mode none = restore_failed
  app_of st mode (some s) = running (app_with st mode s)

  -- `lifespan`, up to its `yield`; the database is read only if one is configured.
  unfoldable pub lifespan :
      Columns D → Settings F D → TradingMode → List ℕ → Database F D → Startup D
  unfolding new_service restore_service effective_mode
  lifespan c st requested holidays db =
      let s = new_service st requested holidays in
      let app = app_of st requested (
        if has_text st.database_url
        then restore_service c.texts s (load_engine_state db)
        else some s) in
      if refuses_key st
      then default_key_in_production
      else if refuses_sandbox st
      then sandbox_in_public
      else app
