-- ===== src/Engine/Costs.antt =====
-- The cost model and the entry gate (server/app/engine/costs.py). Closing prices are floats, of
-- type `F`, and rates are decimals, of type `D`.
pub mod Gate
use auto_trade_stock_demo.Prelude.{
  ℕ, String, Bool, true, false, Option, none, some, List, [], ◌∷◌, ltb, length, Message, Part,
  if◌then◌else◌,
}
use auto_trade_stock_demo.Numeric.{Numeric, ◌+◌, ◌-◌, ◌*◌, ◌/◌, ◌>=◌, ◌>◌, dec, lit, min, max}

-- What the engine takes from the language to go from floats to decimals: `statistics.stdev`,
-- `Decimal(str(x))` and `float(d)`.
pub record Floats (F D : Type 0) : Type 0 where
  pub stdev : List F → F
  pub decimal_of : F → D
  pub float_of : D → F

pub record CostConfig (D : Type 0) : Type 0 where
  pub commission_rate : D
  pub slippage_rate : D
  pub sell_tax_rate : D

pub record EntryGateConfig (D : Type 0) : Type 0 where
  pub cost_multiple : D
  pub move_multiple : D
  pub min_returns : ℕ

pub record GateResult (D : Type 0) : Type 0 where
  pub passed : Bool
  pub expected_move_rate : D
  pub hurdle_rate : D
  pub vol_rate : Option D
  pub reason : Message D

pub record EntryGate (D : Type 0) : Type 0 where
  pub cost : CostConfig D
  pub config : EntryGateConfig D

module _ {D : Type 0} ⦃n : Numeric D⦄ where
  unfoldable pub default_cost : CostConfig D
  default_cost = record {
    commission_rate = lit 15 5;
    slippage_rate = lit 15 4;
    sell_tax_rate = lit 15 4;
  }

  unfoldable pub default_gate : EntryGateConfig D
  default_gate = record { cost_multiple = lit 35 1; move_multiple = lit 30 1; min_returns = 5 }

  unfoldable pub round_trip_rate : CostConfig D → D
  round_trip_rate c = dec 2 * c.commission_rate + dec 2 * c.slippage_rate + c.sell_tax_rate

  unfoldable pub hurdle_rate : EntryGate D → D
  unfolding round_trip_rate
  hurdle_rate g = round_trip_rate g.cost * g.config.cost_multiple

-- The simple returns of consecutive closes; a close at or below zero starts none.
unfoldable pub simple_returns : {F : Type 0} ⦃m : Numeric F⦄ → List F → List F
simple_returns [] = []
simple_returns (prev ∷ []) = []
simple_returns (prev ∷ cur ∷ rest) =
    let tail = simple_returns (cur ∷ rest) in
    if prev > dec 0 then (cur / prev - lit 10 1) ∷ tail else tail

-- `max(2, min_returns)`
abbrev pub at_least_two : ℕ → ℕ
at_least_two k = if ltb 2 k then k else 2

module _ {F D : Type 0} ⦃m : Numeric F⦄ (x : Floats F D) where
  unfoldable pub vol_of_returns : ℕ → List F → Option D
  vol_of_returns min_returns rets =
      if ltb (length rets) (at_least_two min_returns)
      then none
      else some (x.decimal_of (x.stdev rets))

  unfoldable pub realized_daily_vol : Option (List F) → ℕ → Option D
  unfolding vol_of_returns simple_returns
  realized_daily_vol none min_returns = none
  realized_daily_vol (some closes) min_returns =
      if ltb (length closes) 2 then none else vol_of_returns min_returns (simple_returns closes)

module _ {F D : Type 0} ⦃m : Numeric F⦄ ⦃n : Numeric D⦄ (x : Floats F D) where
  -- `Decimal(str(max(0.0, min(1.0, confidence))))`
  unfoldable pub clamp_confidence : F → D
  clamp_confidence c = x.decimal_of (max (dec 0) (min (dec 1) c))

  abbrev comparison : Bool → String
  comparison true = "≥"
  comparison false = "<"

  unfoldable pub judge_move : EntryGate D → F → Option D → GateResult D
  judge_move g confidence none = record {
    passed = false;
    expected_move_rate = dec 0;
    hurdle_rate = hurdle_rate g;
    vol_rate = none;
    reason = Part.lit "변동성 추정 불가(표본 부족) — 보수적 차단" ∷ [];
  }
  judge_move g confidence (some vol) =
      let conf = clamp_confidence confidence in
      let expected = conf * vol * g.config.move_multiple in
      let passed = expected >= hurdle_rate g in
      record {
        passed = passed;
        expected_move_rate = expected;
        hurdle_rate = hurdle_rate g;
        vol_rate = some vol;
        reason =
            Part.lit "기대이동 "
            ∷ Part.fmt ".2f" (expected * dec 100)
            ∷ Part.lit "% "
            ∷ Part.lit (comparison passed)
            ∷ Part.lit " 문턱 "
            ∷ Part.fmt ".2f" (hurdle_rate g * dec 100)
            ∷ Part.lit "% (σ "
            ∷ Part.fmt ".2f" (vol * dec 100)
            ∷ Part.lit "%·conf "
            ∷ Part.num conf
            ∷ Part.lit ")"
            ∷ [];
      }

  unfoldable pub evaluate : EntryGate D → F → Option (List F) → GateResult D
  unfolding judge_move
  evaluate g confidence closes =
      judge_move g confidence (realized_daily_vol x closes g.config.min_returns)
