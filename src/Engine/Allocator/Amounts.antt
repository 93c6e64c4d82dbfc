-- ===== src/Engine/Allocator/Amounts.antt =====
-- The least of the ceilings, the exposure, and the size that fits an amount.
use auto_trade_stock_demo.Prelude.{true, List, [], ◌∷◌, ◌++◌, ◌≡◌, arith, Bool-cases, inl, inr}
use auto_trade_stock_demo.Numeric.{
  Numeric, IsOrdered, IsRounded, IsScaled, IsFloored, le_refl, ◌*◌, ◌/◌, ◌<=◌, ◌>=◌, ◌>◌, dec, min,
  max,
}
use auto_trade_stock_demo.Engine.Allocator.{quantity_within, minimum, exposure}

module _ {D : Type 0} ⦃n : Numeric D⦄ (o : IsOrdered D) where
  abbrev pub AllAtLeast : D → List D → Type 0
  AllAtLeast v [] = Unit
  AllAtLeast v (d ∷ ds) = ((v <= d) ≡ true) × AllAtLeast v ds

  pub min_le_left : (a b : D) → (min a b <= a) ≡ true
  min_le_left a b = ground (arith, le_refl o a, o.le_total a b)

  pub min_le_right : (a b : D) → (min a b <= b) ≡ true
  min_le_right a b = ground (arith, le_refl o b, o.le_total a b)

  pub minimum_le_first : (c : D) (ds : List D) → (minimum c ds <= c) ≡ true
  unfolding minimum
  minimum_le_first c [] = le_refl o c
  minimum_le_first c (d ∷ ds) = o.le_trans _ _ _ (minimum_le_first (min c d) ds) (min_le_left c d)

  pub minimum-AllAtLeast : (c : D) (ds : List D) → AllAtLeast (minimum c ds) ds
  unfolding minimum
  minimum-AllAtLeast c [] = tt
  minimum-AllAtLeast c (d ∷ ds) = (
    o.le_trans _ _ _ (minimum_le_first (min c d) ds) (min_le_right c d),
    minimum-AllAtLeast (min c d) ds,
  )

  pub exposure_nonneg : (c : IsScaled D) (e : D) → (dec 0 <= exposure e) ≡ true
  exposure_nonneg c e =
      ground
        (arith, c.lit_nonneg 1 0, le_refl o (dec 0), o.le_total (dec 0) e, o.le_total e (dec 0))

  pub exposure_le : (e : D) → (exposure e <= dec 1) ≡ true
  exposure_le e = min_le_right (max e (dec 0)) (dec 1)

  pub exposure_nonpos : (e : D) → (e <= dec 0) ≡ true → (exposure e <= dec 0) ≡ true
  exposure_nonpos e h =
      o.le_trans _ _ _ (min_le_left (max e (dec 0)) (dec 1)) (ground (arith, le_refl o (dec 0)))

  -- A size of at least one, for a confidence in [0, 1], is within the quotient of every limit that
  -- the ceiling is within.
  pub quantity_within_fits :
      (r : IsRounded D) (c : IsScaled D) (f : IsFloored D) (ceiling limit conf price e : D)
      → (dec 0 <= conf) ≡ true
      → (conf <= dec 1) ≡ true
      → (price > dec 0) ≡ true
      → (quantity_within ceiling conf price e >= dec 1) ≡ true
      → (ceiling <= limit) ≡ true
      → (quantity_within ceiling conf price e <= limit / price) ≡ true
  unfolding quantity_within
  quantity_within_fits r c f ceiling limit conf price e p q k h l =
      elim (Bool-cases (ceiling <= dec 0)) [
        | inl b ↦ let one = c.dec_pos 1 (omega arith) in ground arith
        | inr b ↦
            let nonneg = o.le_total ceiling (dec 0) b in
            let weighted = r.mul_nonneg ceiling conf nonneg p in
            let scaled =
              r.mul_nonneg (ceiling * conf) (exposure e) weighted (exposure_nonneg c e) in
            let first = c.mul_le ceiling conf nonneg q in
            let second = c.mul_le (ceiling * conf) (exposure e) weighted (exposure_le e) in
            let target = o.le_trans _ _ _ second (o.le_trans _ _ _ first l) in
            rw b (
              o.le_trans _ _ _ (f.floor_le _ (r.div_nonneg _ price scaled k))
                (f.div_mono _ limit price scaled target k))
      ]

  pub quantity_within_positive :
      (c : IsScaled D) (ceiling conf price e : D)
      → (quantity_within ceiling conf price e >= dec 1) ≡ true
      → (ceiling > dec 0) ≡ true
  unfolding quantity_within
  quantity_within_positive c ceiling conf price e h =
      let one = c.dec_pos 1 (omega arith) in ground arith

  pub quantity_within_stopped :
      (r : IsRounded D) (c : IsScaled D) (f : IsFloored D) (ceiling conf price e : D)
      → (dec 0 <= conf) ≡ true
      → (price > dec 0) ≡ true
      → (e <= dec 0) ≡ true
      → (quantity_within ceiling conf price e <= dec 0) ≡ true
  unfolding quantity_within
  quantity_within_stopped r c f ceiling conf price e p k h = elim (Bool-cases (ceiling <= dec 0)) [
    | inl b ↦ rw b (le_refl o (dec 0))
    | inr b ↦
        let weighted = r.mul_nonneg ceiling conf (o.le_total ceiling (dec 0) b) p in
        let none_left = c.mul_nonpos (ceiling * conf) (exposure e) weighted (exposure_nonpos e h) in
        rw b (f.floor_nonpos _ (r.div_nonpos _ price none_left k))
  ]

  pub AllAtLeast-append :
      (v : D) (cs ds : List D) → AllAtLeast v (cs ++ ds) → AllAtLeast v cs × AllAtLeast v ds
  AllAtLeast-append v [] ds h = (tt, h)
  AllAtLeast-append v (c ∷ cs) ds (p, h) =
      let rest = AllAtLeast-append v cs ds h in ((p, rest.0), rest.1)
