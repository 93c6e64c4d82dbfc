-- ===== src/Engine/Screener/Filters.antt =====
-- The filters that a symbol has to pass.
use auto_trade_stock_demo.Prelude.{ℕ, String, true, ◌≤◌, List, ◌≡◌, ◌↔◌, arith, IfKnown, length}
use auto_trade_stock_demo.Numeric.{Numeric, ◌<=◌, ◌>=◌}
use auto_trade_stock_demo.Engine.Screener.{ScreenConfig, ScreenResult, screen_series, reasons_of}

module _ {F : Type 0} ⦃m : Numeric F⦄ where
  -- What the screener asks of the indicators.
  abbrev pub PassesFilters : ℕ → ScreenResult F → ScreenConfig F → Type 0
  PassesFilters history r cfg =
      (cfg.min_history ≤ history)
      × ((r.indicators.last_close >= cfg.min_close_price) ≡ true)
      × ((r.indicators.avg_volume >= cfg.min_avg_volume) ≡ true)
      × (cfg.require_uptrend ≡ true
          → IfKnown r.indicators.sma_long (λ l. (r.indicators.last_close >= l) ≡ true))
      × IfKnown r.indicators.rsi (λ v. (v <= cfg.rsi_overbought) ≡ true)

  -- A symbol passes the screener exactly if it has the history, the price and the volume, is
  -- not below its long average where an uptrend is asked for, and its RSI is not above the
  -- limit, where these are known.
  pub screen_series-passed_iff :
      (symbol : String) (closes volumes : List F) (cfg : ScreenConfig F)
      → (screen_series symbol closes volumes cfg).passed ≡ true
        ↔ PassesFilters (length closes) (screen_series symbol closes volumes cfg) cfg
  unfolding screen_series reasons_of
  screen_series-passed_iff symbol closes volumes cfg = ground arith
