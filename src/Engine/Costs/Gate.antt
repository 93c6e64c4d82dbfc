-- ===== src/Engine/Costs/Gate.antt =====
-- What it takes to pass the entry gate.
use auto_trade_stock_demo.Prelude.{
  ℕ, ◌≤◌, true, Option, none, some, List, ◌≡◌, ◌↔◌, arith, length, Option-cases, inl, inr,
}
use auto_trade_stock_demo.Numeric.{Numeric, ◌*◌, ◌<=◌}
use auto_trade_stock_demo.Engine.Costs.{
  Floats, EntryGate, evaluate, realized_daily_vol, vol_of_returns, hurdle_rate, clamp_confidence,
  simple_returns,
}

module _ {F D : Type 0} ⦃m : Numeric F⦄ ⦃n : Numeric D⦄ (x : Floats F D) where
  -- An estimate of the volatility rests on enough usable returns.
  pub realized_daily_vol_sample :
      (closes : List F) (k : ℕ) (v : D)
      → realized_daily_vol x (some closes) k ≡ some v
      → (2 ≤ length closes)
        × (2 ≤ length (simple_returns closes))
        × (k ≤ length (simple_returns closes))
        × (v ≡ x.decimal_of (x.stdev (simple_returns closes)))
  unfolding realized_daily_vol vol_of_returns
  realized_daily_vol_sample closes k v h = ground arith

  -- The gate passes a buy exactly if the volatility can be estimated and the move that it
  -- expects reaches the hurdle.
  pub evaluate-passed_iff :
      (g : EntryGate D) (c : F) (closes : Option (List F))
      → ((evaluate x g c closes).passed ≡ true) ↔ (
          (v : D) × (realized_daily_vol x closes g.config.min_returns ≡ some v)
          × ((hurdle_rate g <= clamp_confidence x c * v * g.config.move_multiple) ≡ true))
  unfolding evaluate
  evaluate-passed_iff g c closes =
      elim (Option-cases (realized_daily_vol x closes g.config.min_returns)) [
        | inl e ↦ (λ h. absurd (refused e h), λ (v, p, q). absurd (none_some e p))
        | inr (v, e) ↦ (λ h. (v, e, ground arith), λ (w, p, q). ground arith)
      ]
    where
      refused :
          realized_daily_vol x closes g.config.min_returns ≡ none
          → (evaluate x g c closes).passed ≡ true
          → ⊥
      refused e h = ground arith

      none_some : {v : D} {o : Option D} → o ≡ none → o ≡ some v → ⊥
      none_some p q = ground arith
