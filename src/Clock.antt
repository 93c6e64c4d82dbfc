-- ===== src/Clock.antt =====
-- Python's aware `datetime` and KST (server/app/orders/guardrails.py): an instant in microseconds
-- of UTC since 0001-01-01, with the offset of its zone (not west of UTC). A date is its ordinal,
-- as in `date.toordinal`, and a time of day is in microseconds.
use Prim.Native.Nat.{◌+◌, ◌*◌, ◌/◌, ◌%◌}
use auto_trade_stock_demo.Prelude.{ℕ}

pub record DateTime : Type 0 where
  pub instant : ℕ
  pub offset : ℕ

abbrev pub minute : ℕ
minute = 60 * 1000000

abbrev pub day : ℕ
day = 24 * 60 * minute

-- `time(h, m)`
abbrev pub clock : ℕ → ℕ → ℕ
clock h m = (h * 60 + m) * minute

-- `KST = timezone(timedelta(hours=9))`
abbrev pub kst : ℕ
kst = 9 * 60 * minute

unfoldable pub astimezone : DateTime → ℕ → DateTime
astimezone t z = record { instant = t.instant; offset = z }

unfoldable pub date : DateTime → ℕ
date t = (t.instant + t.offset) / day + 1

unfoldable pub time : DateTime → ℕ
time t = (t.instant + t.offset) % day

-- Monday is 0.
unfoldable pub weekday : ℕ → ℕ
weekday d = (d + 6) % 7
