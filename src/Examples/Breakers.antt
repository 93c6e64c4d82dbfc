-- ===== src/Examples/Breakers.antt =====
-- The theorems on the circuit breaker at concrete inputs.
use Prim.Native.Char.{Char, code}
use Prim.Native.String.{String}
use auto_trade_stock_demo.Prelude.{
  ℕ, zero, suc, true, false, Option, none, some, List, [], ◌∷◌, ◌≡◌, ◌⊎◌, inl, inr, refl, ap, eqb,
  if◌then◌else◌, ◌==◌, eq_iff, Bool-cases,
}
use auto_trade_stock_demo.Numeric.{dec, lit}
use auto_trade_stock_demo.Clock.{DateTime, date, kst, clock}
use auto_trade_stock_demo.Orders.Breaker.{CircuitBreaker, assess, tripped}
use auto_trade_stock_demo.Orders.Breaker.HighWater.{
  Reading, assess_all, AllBelow, Shown, assess_all-peak,
}
use auto_trade_stock_demo.Orders.Breaker.Latch.{StaysDeep, assess_all-stays_halted}
use auto_trade_stock_demo.Orders.Breaker.Drawdown.{IsDrawn, assess_all-fresh-IsDrawn}
use auto_trade_stock_demo.Orders.Breaker.{fresh}
use auto_trade_stock_demo.Orders.Breaker.Persist.{
  Texts, ReadsBack, dump_state, restore_state, restore_state-dump_state,
}
use auto_trade_stock_demo.Examples.Fixed.{Fixed, pos, negsuc, fixed_numeric, fixed-IsOrdered}

abbrev morning : DateTime
morning = record { instant = clock 1 0; offset = kst }

abbrev started : CircuitBreaker Fixed
started = record {
  config = record {
    daily_loss_limit = lit 5 2;
    max_drawdown_limit = lit 15 2;
    rearm_drawdown = lit 8 2;
  };
  high_water_mark = some (dec 1000);
  drawdown = dec 0;
  daily_halt_date = none;
  drawdown_halt = false;
  today = none;
  reason = [];
}

abbrev reading : Fixed → Reading Fixed
reading e = record { equity = some e; daily_pl_rate = none; now = morning }

-- A fall of 20 %, a recovery to -10 %, and a reading with no equity.
abbrev fall : List (Reading Fixed)
fall = reading (dec 800) ∷ reading (dec 900) ∷ record (reading (dec 0)) { equity = none } ∷ []

assess_all-peak_example :
    AllBelow fall (assess_all fall started).high_water_mark
    × ((m : Fixed)
        → (assess_all fall started).high_water_mark ≡ some m
        → (started.high_water_mark ≡ some m) ⊎ Shown m fall)
assess_all-peak_example = assess_all-peak fall started fixed-IsOrdered

abbrev latched : CircuitBreaker Fixed
latched = record started { drawdown_halt = true; drawdown = lit 20 2 }

abbrev recovery : List (Reading Fixed)
recovery = reading (dec 900) ∷ []

recovery_deep : StaysDeep recovery latched
unfolding assess date
recovery_deep = (refl, tt)

assess_all-stays_halted_example : (assess_all recovery latched).drawdown_halt ≡ true
assess_all-stays_halted_example = assess_all-stays_halted recovery latched refl recovery_deep

-- A rise to 1000, a fall to 900 and a total loss, which counts for nothing.
abbrev ruin : List (Reading Fixed)
ruin = reading (dec 1000) ∷ reading (dec 900) ∷ reading (dec 0) ∷ []

assess_all-fresh-IsDrawn_example : IsDrawn (some (dec 900)) (assess_all ruin (fresh started.config))
assess_all-fresh-IsDrawn_example = assess_all-fresh-IsDrawn ruin started.config fixed-IsOrdered

-- Texts in unary.
abbrev unary : ℕ → String
unary zero = String.[]
unary (suc m) = String.◌∷◌ "x" (unary m)

abbrev marks : String → ℕ
marks String.[] = 0
marks (String.◌∷◌ c s) = suc (marks s)

abbrev print : Fixed → String
print (pos m) = String.◌∷◌ "p" (unary m)
print (negsuc m) = String.◌∷◌ "n" (unary m)

abbrev parse : String → Option Fixed
parse String.[] = none
parse (String.◌∷◌ c s) = if eqb (code c) b'p' then some (pos (marks s)) else some (negsuc (marks s))

abbrev parse_date : String → Option ℕ
parse_date String.[] = none
parse_date (String.◌∷◌ c s) = some (marks s)

abbrev pub unary_texts : Texts Fixed
unary_texts = record {
  str = print;
  decimal = parse;
  isoformat = λ d. String.◌∷◌ "d" (unary d);
  fromisoformat = parse_date;
}

marks-unary : (m : ℕ) → marks (unary m) ≡ m
marks-unary zero = refl
marks-unary (suc m) = ap suc (marks-unary m)

parse-print : (a : Fixed) → parse (print a) ≡ some a
parse-print (pos m) = rw (marks-unary m) refl
parse-print (negsuc m) = rw (marks-unary m) refl

cons_nonempty : (c : Char) (s : String) → (String.◌∷◌ c s == "") ≡ false
cons_nonempty c s = elim (Bool-cases (String.◌∷◌ c s == "")) [
  | inl e ↦ absurd (cons_ne_nil ((eq_iff (String.◌∷◌ c s) "").0 e))
  | inr e ↦ e
]
  where
    cons_ne_nil : String.◌∷◌ c s ≡ String.[] → ⊥
    cons_ne_nil p = cc

print_nonempty : (a : Fixed) → (print a == "") ≡ false
print_nonempty (pos m) = cons_nonempty "p" (unary m)
print_nonempty (negsuc m) = cons_nonempty "n" (unary m)

pub unary-ReadsBack : ReadsBack unary_texts
unary-ReadsBack = record {
  decimal-str = parse-print;
  str_nonempty = print_nonempty;
  fromisoformat-isoformat = λ d. ap some (marks-unary d);
  isoformat_nonempty = λ d. cons_nonempty "d" (unary d);
}

restore_state-dump_state_example :
    (restore_state unary_texts started (dump_state unary_texts latched) ≡ (latched, true))
    × (tripped (restore_state unary_texts started (dump_state unary_texts latched)).0
        ≡ tripped latched)
restore_state-dump_state_example =
    restore_state-dump_state unary_texts latched started unary-ReadsBack refl
