-- ===== src/Engine/Judge/Candidates.antt =====
-- What the engine may rely on, whatever a judge answers.
use auto_trade_stock_demo.Prelude.{true, ◌≡◌, arith, refl}
use auto_trade_stock_demo.Numeric.{Numeric, IsOrdered, IsScaled, le_refl, ◌<=◌, dec, min, max}
use auto_trade_stock_demo.Engine.Judge.{Decision, CandidateContext, sell, normalize}

module _ {F : Type 0} ⦃m : Numeric F⦄ where
  -- Between 0 and 1.
  abbrev pub InUnit : F → Type 0
  InUnit v = ((dec 0 <= v) ≡ true) × ((v <= dec 1) ≡ true)

  clamp-InUnit : (o : IsOrdered F) (c : IsScaled F) (v : F) → InUnit (min (max v (dec 0)) (dec 1))
  clamp-InUnit o c v = ground (
    arith,
    c.lit_nonneg 1 0,
    le_refl o (dec 0),
    le_refl o (dec 1),
    o.le_total (dec 0) v,
    o.le_total v (dec 0),
    o.le_total (dec 1) v,
    o.le_total (dec 1) (dec 0),
  )

  -- A normalised decision is about the symbol of the candidate, has a confidence within 0 and
  -- 1, and sells only what is held.
  pub normalize_safe :
      {D : Type 0} (d : Decision F D) (ctx : CandidateContext F D)
      → IsOrdered F
      → IsScaled F
      → ((normalize d ctx).symbol ≡ ctx.symbol)
        × InUnit (normalize d ctx).confidence
        × ((normalize d ctx).action ≡ sell → ctx.already_held ≡ true)
  unfolding normalize
  normalize_safe d ctx o c = (refl, clamp-InUnit o c d.confidence, λ h. ground arith)
