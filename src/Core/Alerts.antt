-- ===== src/Core/Alerts.antt =====
-- The gate of repeated alerts (server/app/core/notify.py): one alert for a key in a window. Time
-- is the monotonic clock, in microseconds.
use Prim.Native.Nat.{◌-◌, ◌+◌}
use auto_trade_stock_demo.Prelude.{
  ℕ, String, Bool, true, false, Option, none, some, Dict, lookup, insert, lookup-insert, ltb, ◌≡◌,
  ◌≢◌, ◌≤◌, ◌<◌, arith, eq_iff, if◌then◌else◌,
}

-- `_last_sent`
abbrev pub AlertGate : Type 0
AlertGate = Dict ℕ

abbrev suppressed : Option ℕ → ℕ → ℕ → Bool
suppressed none now window = false
suppressed (some last) now window = ltb (now - last) window

unfoldable pub allow : AlertGate → String → ℕ → ℕ → AlertGate × Bool
allow g key now window =
    if suppressed (lookup key g) now window then (g, false) else (insert key now g, true)

-- After an alert was allowed, the next call for its key is suppressed within its window and
-- allowed from its end on, and another key is answered as before.
pub allow_spaced :
    (g : AlertGate) (key other : String) (now later window span : ℕ)
    → (allow g key now window).1 ≡ true
    → ((later < now + span → 0 < span → (allow (allow g key now window).0 key later span).1 ≡ false)
        × (now + span ≤ later → (allow (allow g key now window).0 key later span).1 ≡ true)
        × (key ≢ other
            → (allow (allow g key now window).0 other later span).1 ≡ (allow g other later span).1))
unfolding allow
allow_spaced g key other now later window span h = ground (
  arith,
  lookup-insert key key now g,
  lookup-insert key other now g,
  eq_iff key key,
  eq_iff key other,
)
