-- ===== src/Core/Modes.antt =====
-- The trading mode of the environment (server/app/core/config.py). `clean` is Python's
-- `s.strip().upper()`.
use auto_trade_stock_demo.Prelude.{
  String, Bool, true, false, not, Option, none, some, List, [], ◌∷◌, Dict, lookup, ◌==◌, ◌≡◌, ◌≢◌,
  ◌↔◌, arith, eq_iff, if◌then◌else◌,
}
use auto_trade_stock_demo.Orders.Models.{TradingMode}

-- `env.get(key) or default`: the empty text is falsy.
abbrev pub env_or : String → Option String → String
env_or default none = default
env_or default (some v) = if v == "" then default else v

abbrev downgraded : String
downgraded =
    "TRADING_MODE=LIVE 이지만 I_UNDERSTAND_LIVE_REAL_MONEY=YES 확인이 없어 DRY_RUN 으로 강등합니다(실자금 안전장치)."

-- Without the variation selector of its first sign.
abbrev live_warning : String
live_warning = "⚠ LIVE 모드 — 실자금 주문이 전송됩니다. 소액 1주부터 검증하세요."

abbrev confirmed : Bool → TradingMode × List String
confirmed true = (TradingMode.live, live_warning ∷ [])
confirmed false = (TradingMode.dry_run, downgraded ∷ [])

unfoldable pub load_trading_mode : (String → String) → Dict String → TradingMode × List String
load_trading_mode clean env =
    if not (clean (env_or "DRY_RUN" (lookup "TRADING_MODE" env)) == "LIVE")
    then (TradingMode.dry_run, [])
    else confirmed (clean (env_or "" (lookup "I_UNDERSTAND_LIVE_REAL_MONEY" env)) == "YES")

-- The mode is LIVE exactly if both variables say so, and whenever the first says so there is a
-- warning.
pub load_trading_mode-live_iff :
    (clean : String → String) (env : Dict String)
    → ((load_trading_mode clean env).0 ≡ TradingMode.live ↔ (
        (clean (env_or "DRY_RUN" (lookup "TRADING_MODE" env)) ≡ "LIVE")
        × (clean (env_or "" (lookup "I_UNDERSTAND_LIVE_REAL_MONEY" env)) ≡ "YES")))
      × (clean (env_or "DRY_RUN" (lookup "TRADING_MODE" env)) ≡ "LIVE"
          → (load_trading_mode clean env).1 ≢ [])
unfolding load_trading_mode
load_trading_mode-live_iff clean env = ground (
  arith,
  eq_iff (clean (env_or "DRY_RUN" (lookup "TRADING_MODE" env))) "LIVE",
  eq_iff (clean (env_or "" (lookup "I_UNDERSTAND_LIVE_REAL_MONEY" env))) "YES",
)
