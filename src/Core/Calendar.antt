-- ===== src/Core/Calendar.antt =====
-- The KRX calendar (server/app/core/calendar.py), and the next trading day
-- (server/app/news/alignment.py). A set of ISO dates is a list of ordinals; the warning on a year
-- that is not listed is left out.
use Prim.Native.Nat.{◌+◌, ◌-◌}
use auto_trade_stock_demo.Prelude.{
  ℕ, zero, suc, ◌≤◌, ◌<◌, Bool, true, false, not, Option, none, some, List, [], ◌∷◌, leb, ◌≡◌, inl,
  inr, refl, arith, Bool-cases, if◌then◌else◌,
}
use auto_trade_stock_demo.Clock.{weekday}
use auto_trade_stock_demo.Orders.Guardrails.{is_holiday}

unfoldable pub is_trading_day : ℕ → List ℕ → Bool
is_trading_day d holidays = if leb 5 (weekday d) then false else not (is_holiday d holidays)

-- The loop of `next_trading_day` from the day `d`, with fuel.
unfoldable pub seek : ℕ → ℕ → List ℕ → Option ℕ
seek zero d holidays = none
seek (suc fuel) d holidays =
    let rest = seek fuel (d + 1) holidays in if is_trading_day d holidays then some d else rest

-- The last day that the holidays name.
unfoldable pub last_holiday : List ℕ → ℕ
last_holiday [] = 0
last_holiday (h ∷ hs) = let rest = last_holiday hs in if leb rest h then h else rest

-- The loop runs for the days up to the last holiday, and over one weekend.
abbrev pub enough : ℕ → List ℕ → ℕ
enough d holidays = (last_holiday holidays + 4) - d + 3

unfoldable pub next_trading_day : ℕ → List ℕ → Option ℕ
unfolding seek last_holiday
next_trading_day d holidays = seek (enough (d + 1) holidays) (d + 1) holidays

not_listed : (d : ℕ) (hs : List ℕ) → last_holiday hs < d → is_holiday d hs ≡ false
unfolding last_holiday is_holiday
not_listed d [] h = refl
not_listed d (x ∷ hs) h = ground (arith, not_listed d hs)

-- No trading day lies between `d` and `t`, and `t` is one.
abbrev pub IsFirst : ℕ → List ℕ → ℕ → Type 0
IsFirst d holidays t =
    (d ≤ t)
    × (is_trading_day t holidays ≡ true)
    × ((e : ℕ) → d ≤ e → e < t → is_trading_day e holidays ≡ false)

seek_finds :
    (n d t : ℕ) (hs : List ℕ)
    → is_trading_day t hs ≡ true
    → d ≤ t
    → t < d + n
    → (r : ℕ) × (seek n d hs ≡ some r) × IsFirst d hs r
unfolding seek
seek_finds zero d t hs b p q = absurd (omega arith)
seek_finds (suc n) d t hs b p q = elim (Bool-cases (is_trading_day d hs)) [
  | inl e ↦ (d, rw e refl, (omega arith, e, λ k u v. absurd (omega arith)))
  | inr e ↦
      let (r, found, (low, trading, first)) =
        seek_finds n (d + 1) t hs b (later_day d t hs e b p) (omega arith) in
      (r, rw e found, (omega arith, trading, λ k u v. skipped d k r hs e first u v))
]
  where
    later_day :
        (d t : ℕ) (hs : List ℕ)
        → is_trading_day d hs ≡ false
        → is_trading_day t hs ≡ true
        → d ≤ t
        → d + 1 ≤ t
    later_day d t hs e b p = ground arith

    skipped :
        (d k r : ℕ) (hs : List ℕ)
        → is_trading_day d hs ≡ false
        → ((j : ℕ) → d + 1 ≤ j → j < r → is_trading_day j hs ≡ false)
        → d ≤ k
        → k < r
        → is_trading_day k hs ≡ false
    skipped d k r hs e first u v = ground (arith, first k)

-- Three days in a row past the holidays hold a trading day.
weekday_ahead :
    (m : ℕ) (hs : List ℕ)
    → last_holiday hs < m
    → (t : ℕ) × (is_trading_day t hs ≡ true) × (m ≤ t) × (t ≤ m + 2)
unfolding is_trading_day weekday
weekday_ahead m hs h = elim (Bool-cases (leb 5 (weekday m))) [
  | inl a ↦ elim (Bool-cases (leb 5 (weekday (m + 1)))) [
    | inl b ↦ (m + 2, ground (arith, not_listed (m + 2) hs (omega arith)), omega arith, omega arith)
    | inr b ↦
        (m + 1, rw b (rw (not_listed (m + 1) hs (omega arith)) refl), omega arith, omega arith)
  ]
  | inr a ↦ (m, rw a (rw (not_listed m hs h) refl), omega arith, omega arith)
]

-- There is a next trading day, and it is the first one after the date.
pub next_trading_day-IsFirst :
    (d : ℕ) (hs : List ℕ) → (t : ℕ) × (next_trading_day d hs ≡ some t) × IsFirst (d + 1) hs t
unfolding next_trading_day
next_trading_day-IsFirst d hs =
    let (t, b, low, high) =
      weekday_ahead (last_holiday hs + 1 + (d - last_holiday hs)) hs (omega arith) in
    seek_finds (enough (d + 1) hs) (d + 1) t hs b (omega arith) (omega arith)
