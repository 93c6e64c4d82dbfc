-- ===== src/News.antt =====
-- The news study (server/app/news): the return window of an article (server/app/news/alignment.py).
use Prim.Native.Nat.{◌+◌}
use auto_trade_stock_demo.Prelude.{
  ℕ, true, ◌&&◌, Option, none, some, List, ltb, ◌<◌, ◌≡◌, ◌⊎◌, refl, arith, Bool-cases, inl, inr,
  if◌then◌else◌,
}
use auto_trade_stock_demo.Clock.{DateTime, astimezone, date, time, clock, kst}
use auto_trade_stock_demo.Core.Calendar.{
  is_trading_day, next_trading_day, IsFirst, next_trading_day-IsFirst,
}

pub data PriceField : Type 0 where
  opening closing : PriceField

-- The rule's description is left out.
pub record ReturnWindow : Type 0 where
  pub entry_date : ℕ
  pub entry_field : PriceField
  pub exit_date : ℕ
  pub exit_field : PriceField

abbrev pub market_close : ℕ
market_close = clock 15 30

abbrev pub closing_window : ℕ → Option ℕ → Option ReturnWindow
closing_window d none = none
closing_window d (some t) =
    some (record { entry_date = d; entry_field = closing; exit_date = t; exit_field = closing })

abbrev pub opening_window : Option ℕ → (ℕ → Option ℕ) → Option ReturnWindow
opening_window none next = none
opening_window (some t) next = opened t (next t)
  where
    opened : ℕ → Option ℕ → Option ReturnWindow
    opened t none = none
    opened t (some u) =
        some (record { entry_date = t; entry_field = opening; exit_date = u; exit_field = opening })

unfoldable pub return_window : DateTime → List ℕ → Option ReturnWindow
return_window published holidays =
    let p = astimezone published kst in
    let d = date p in
    if is_trading_day d holidays && ltb (time p) market_close
    then closing_window d (next_trading_day d holidays)
    else opening_window (next_trading_day d holidays) (λ t. next_trading_day t holidays)

-- The entry is no earlier than the article: the close of the day while the market is open, or the
-- opening of the first trading day after it; the exit is one trading day later.
abbrev pub IsAhead : DateTime → List ℕ → ReturnWindow → Type 0
IsAhead published hs w =
    (is_trading_day w.entry_date hs ≡ true)
    × IsFirst (w.entry_date + 1) hs w.exit_date
    × (w.exit_field ≡ w.entry_field)
    × (((w.entry_field ≡ closing)
          × (w.entry_date ≡ date (astimezone published kst))
          × (time (astimezone published kst) < market_close))
        ⊎ ((w.entry_field ≡ opening)
            × IsFirst (date (astimezone published kst) + 1) hs w.entry_date))

-- There is a return window, and it does not look ahead of the article: the entry is the close
-- of the trading day on which the article came out before the market closed, or the opening of
-- the first trading day after it, and the exit is the first trading day after the entry, at
-- the same time of day.
pub return_window-IsAhead :
    (published : DateTime) (hs : List ℕ)
    → (w : ReturnWindow) × (return_window published hs ≡ some w) × IsAhead published hs w
unfolding return_window
return_window-IsAhead published hs =
    let p = astimezone published kst in
    let (t, e, first) = next_trading_day-IsFirst (date p) hs in
    let (u, f, second) = next_trading_day-IsFirst t hs in
    elim (Bool-cases (is_trading_day (date p) hs && ltb (time p) market_close)) [
      | inl b ↦ (
        record { entry_date = date p; entry_field = closing; exit_date = t; exit_field = closing },
        rw b (rw e refl),
        (ground arith, first, refl, inl (refl, refl, ground arith)),
      )
      | inr b ↦ (
        record { entry_date = t; entry_field = opening; exit_date = u; exit_field = opening },
        rw b (rw e (rw f refl)),
        (first.1, second, refl, inr (refl, first)),
      )
    ]
