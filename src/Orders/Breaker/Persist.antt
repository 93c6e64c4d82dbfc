-- ===== src/Orders/Breaker/Persist.antt =====
-- `dump_state` and `restore_state`: the breaker as a JSON object of texts, and back. `str` and
-- `Decimal`, `isoformat` and `fromisoformat` are the language's; they are an interface here.
use auto_trade_stock_demo.Prelude.{
  ℕ, String, Bool, true, false, Option, none, some, ◌≡◌, refl, ap, arith, ◌==◌, if◌then◌else◌,
}
use auto_trade_stock_demo.Orders.Breaker.{CircuitBreaker, tripped}

pub record Texts (D : Type 0) : Type 0 where
  pub str : D → String
  pub decimal : String → Option D
  pub isoformat : ℕ → String
  pub fromisoformat : String → Option ℕ

-- What is written reads back as the same value, and is not the empty text.
pub record ReadsBack {D : Type 0} (x : Texts D) : Type 0 where
  pub decimal-str : (a : D) → x.decimal (x.str a) ≡ some a
  pub str_nonempty : (a : D) → (x.str a == "") ≡ false
  pub fromisoformat-isoformat : (d : ℕ) → x.fromisoformat (x.isoformat d) ≡ some d
  pub isoformat_nonempty : (d : ℕ) → (x.isoformat d == "") ≡ false

-- The JSON object; a field is `none` where the key is missing or null.
pub record StoredState : Type 0 where
  pub high_water_mark : Option String
  pub drawdown : Option String
  pub daily_halt_date : Option String
  pub drawdown_halt : Option Bool
  pub today : Option String

module _ {D : Type 0} (x : Texts D) where
  abbrev str_opt : Option D → Option String
  str_opt none = none
  str_opt (some a) = some (x.str a)

  abbrev iso_opt : Option ℕ → Option String
  iso_opt none = none
  iso_opt (some d) = some (x.isoformat d)

  unfoldable pub dump_state : CircuitBreaker D → StoredState
  dump_state b = record {
    high_water_mark = str_opt b.high_water_mark;
    drawdown = some (x.str b.drawdown);
    daily_halt_date = iso_opt b.daily_halt_date;
    drawdown_halt = some b.drawdown_halt;
    today = iso_opt b.today;
  }

  -- A step of `restore_state`: the breaker so far, and whether no exception was raised yet. What
  -- was assigned before an exception stays assigned.
  abbrev pub Restoring : Type 0
  Restoring = CircuitBreaker D × Bool

  abbrev then_do : Restoring → (CircuitBreaker D → Restoring) → Restoring
  then_do (b, true) f = f b
  then_do (b, false) f = (b, false)

  -- `parse(text) if text else None`: `none` where the parser raises.
  abbrev parse_opt {ℓ} : {A : Type ℓ} → (String → Option A) → Option String → Option (Option A)
  parse_opt parse none = some none
  parse_opt parse (some t) =
      if t == "" then some none else elim (parse t) [ none ↦ none | some a ↦ some (some a) ]

  -- `state.get("drawdown") or "0"`
  abbrev text_or_zero : Option String → String
  text_or_zero none = "0"
  text_or_zero (some t) = if t == "" then "0" else t

  abbrev set_mark : Option (Option D) → CircuitBreaker D → Restoring
  set_mark none b = (b, false)
  set_mark (some m) b = (record b { high_water_mark = m }, true)

  abbrev set_drawdown : Option D → CircuitBreaker D → Restoring
  set_drawdown none b = (b, false)
  set_drawdown (some a) b = (record b { drawdown = a }, true)

  -- The assignments of the halt date and of the latch, which cannot raise.
  abbrev set_halts : Option Bool → Option (Option ℕ) → CircuitBreaker D → Restoring
  set_halts halt none b = (b, false)
  set_halts none (some d) b = (record b { daily_halt_date = d; drawdown_halt = false }, true)
  set_halts (some h) (some d) b = (record b { daily_halt_date = d; drawdown_halt = h }, true)

  abbrev set_today : Option (Option ℕ) → CircuitBreaker D → Restoring
  set_today none b = (b, false)
  set_today (some d) b = (record b { today = d }, true)

  unfoldable pub restore_state : CircuitBreaker D → StoredState → Restoring
  restore_state b st =
      then_do
        (then_do
          (then_do (set_mark (parse_opt x.decimal st.high_water_mark) b)
            (set_drawdown (x.decimal (text_or_zero st.drawdown))))
          (set_halts st.drawdown_halt (parse_opt x.fromisoformat st.daily_halt_date)))
        (set_today (parse_opt x.fromisoformat st.today))

  parse-str : ReadsBack x → (m : Option D) → parse_opt x.decimal (str_opt m) ≡ some m
  parse-str r none = refl
  parse-str r (some a) = rw (r.str_nonempty a, r.decimal-str a) refl

  parse-iso : ReadsBack x → (m : Option ℕ) → parse_opt x.fromisoformat (iso_opt m) ≡ some m
  parse-iso r none = refl
  parse-iso r (some d) = rw (r.isoformat_nonempty d, r.fromisoformat-isoformat d) refl

  restores :
      (s b : CircuitBreaker D)
      → ReadsBack x
      → b.config ≡ s.config
      → restore_state b (dump_state s) ≡ (record s { reason = b.reason }, true)
  unfolding restore_state dump_state
  restores s b r c =
      rw
        (
          parse-str r s.high_water_mark,
          parse-iso r s.daily_halt_date,
          parse-iso r s.today,
          r.str_nonempty s.drawdown,
          r.decimal-str s.drawdown,
        )
        (ground arith)

  -- If the texts read back, a breaker that restores the dump of another one with the same
  -- configuration equals it but for the reason, which it keeps, and is tripped exactly if the
  -- other one is.
  pub restore_state-dump_state :
      (s b : CircuitBreaker D)
      → ReadsBack x
      → b.config ≡ s.config
      → (restore_state b (dump_state s) ≡ (record s { reason = b.reason }, true))
        × (tripped (restore_state b (dump_state s)).0 ≡ tripped s)
  unfolding tripped
  restore_state-dump_state s b r c =
      let e = restores s b r c in (e, ap (λ (q : Restoring). tripped q.0) e)
