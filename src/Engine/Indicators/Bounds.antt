-- ===== src/Engine/Indicators/Bounds.antt =====
-- The RSI lies between 0 and 100.
use Prim.Native.Nat.{◌-◌ as nat_sub}
use auto_trade_stock_demo.Prelude.{
  ℕ, zero, suc, ◌<◌, true, some, List, [], ◌∷◌, ◌≡◌, arith, take, drop, Bool-cases, inl, inr,
}
use auto_trade_stock_demo.Numeric.{
  Numeric, IsOrdered, IsRounded, IsScaled, le_refl, ◌+◌, ◌-◌, ◌/◌, neg, ◌<=◌, ◌>◌, ◌=?◌, dec, max,
}
use auto_trade_stock_demo.Engine.Indicators.{
  sum_from, gains_of, losses_of, smooth, average, rsi_of, rsi,
}

module _ {F : Type 0} ⦃m : Numeric F⦄ where
  abbrev AllNonneg : List F → Type 0
  AllNonneg [] = Unit
  AllNonneg (x ∷ xs) = ((dec 0 <= x) ≡ true) × AllNonneg xs

  max-nonneg : (o : IsOrdered F) (a : F) → (dec 0 <= max a (dec 0)) ≡ true
  max-nonneg o a = ground (arith, le_refl o (dec 0), o.le_total a (dec 0), o.le_total (dec 0) a)

  gains_of-AllNonneg : (o : IsOrdered F) (xs : List F) → AllNonneg (gains_of xs)
  unfolding gains_of
  gains_of-AllNonneg o [] = tt
  gains_of-AllNonneg o (a ∷ []) = tt
  gains_of-AllNonneg o (a ∷ b ∷ xs) = (max-nonneg o (b - a), gains_of-AllNonneg o (b ∷ xs))

  losses_of-AllNonneg : (o : IsOrdered F) (xs : List F) → AllNonneg (losses_of xs)
  unfolding losses_of
  losses_of-AllNonneg o [] = tt
  losses_of-AllNonneg o (a ∷ []) = tt
  losses_of-AllNonneg o (a ∷ b ∷ xs) = (max-nonneg o (neg (b - a)), losses_of-AllNonneg o (b ∷ xs))

  take-AllNonneg : (k : ℕ) (xs : List F) → AllNonneg xs → AllNonneg (take k xs)
  unfolding take
  take-AllNonneg zero xs h = tt
  take-AllNonneg (suc k) [] h = tt
  take-AllNonneg (suc k) (x ∷ xs) (p, h) = (p, take-AllNonneg k xs h)

  drop-AllNonneg : (k : ℕ) (xs : List F) → AllNonneg xs → AllNonneg (drop k xs)
  unfolding drop
  drop-AllNonneg zero xs h = h
  drop-AllNonneg (suc k) [] h = tt
  drop-AllNonneg (suc k) (x ∷ xs) (p, h) = drop-AllNonneg k xs h

  sum_from_nonneg :
      (r : IsRounded F) (acc : F) (xs : List F)
      → (dec 0 <= acc) ≡ true
      → AllNonneg xs
      → (dec 0 <= sum_from acc xs) ≡ true
  unfolding sum_from
  sum_from_nonneg r acc [] a h = a
  sum_from_nonneg r acc (x ∷ xs) a (p, h) =
      sum_from_nonneg r (acc + x) xs (r.add_nonneg acc x a p) h

  smooth_nonneg :
      (r : IsRounded F) (c : IsScaled F) (period : ℕ) (k : 0 < period) (xs : List F) (avg : F)
      → (dec 0 <= avg) ≡ true
      → AllNonneg xs
      → (dec 0 <= smooth period avg xs) ≡ true
  unfolding smooth
  smooth_nonneg r c period k [] avg a h = a
  smooth_nonneg r c period k (x ∷ xs) avg a (p, h) =
      let weighted =
        r.mul_nonneg avg (dec (nat_sub period 1)) a (c.lit_nonneg (nat_sub period 1) 0) in
      let next = r.div_nonneg _ (dec period) (r.add_nonneg _ x weighted p) (c.dec_pos period k) in
      smooth_nonneg r c period k xs _ next h

  average_nonneg :
      (r : IsRounded F) (c : IsScaled F) (period : ℕ) (xs : List F)
      → 0 < period
      → AllNonneg xs
      → (dec 0 <= average period xs) ≡ true
  unfolding average
  average_nonneg r c period xs k h =
      let total =
        sum_from_nonneg r (dec 0) (take period xs) (c.lit_nonneg 0 0)
          (take-AllNonneg period xs h) in
      smooth_nonneg r c period k (drop period xs) _
        (r.div_nonneg _ (dec period) total (c.dec_pos period k)) (drop-AllNonneg period xs h)

  -- Between 0 and 100.
  abbrev pub InPercent : F → Type 0
  InPercent v = ((dec 0 <= v) ≡ true) × ((v <= dec 100) ≡ true)

  rsi_of-InPercent :
      (o : IsOrdered F) (r : IsRounded F) (c : IsScaled F) (g l : F)
      → (dec 0 <= g) ≡ true
      → (dec 0 <= l) ≡ true
      → InPercent (rsi_of g l)
  unfolding rsi_of
  rsi_of-InPercent o r c g l p q = elim (Bool-cases (l =? dec 0)) [
    | inl e ↦ rw e (c.lit_nonneg 100 0, le_refl o (dec 100))
    | inr e ↦
        let above : (l > dec 0) ≡ true = ground arith in
        let ratio = r.div_nonneg g l p above in
        let base = r.add_ge (dec 1) (g / l) ratio in
        let below = c.div_le (dec 100) (dec 1 + g / l) (c.lit_nonneg 100 0) base in
        let positive : (dec 1 + g / l > dec 0) ≡ true =
          ground (arith, c.dec_pos 1, o.le_trans (dec 1) (dec 1 + g / l) (dec 0)) in
        let part = r.div_nonneg (dec 100) (dec 1 + g / l) (c.lit_nonneg 100 0) positive in
        rw e (r.sub_nonneg (dec 100) _ below, r.sub_le (dec 100) _ part)
  ]

  -- The RSI, where there is one, lies between 0 and 100.
  pub rsi-InPercent :
      (values : List F) (period : ℕ) (v : F)
      → IsOrdered F
      → IsRounded F
      → IsScaled F
      → rsi values period ≡ some v
      → InPercent v
  unfolding rsi
  rsi-InPercent values zero v o r c h = ground arith
  rsi-InPercent values (suc k) v o r c h =
      let gain =
        average_nonneg r c (suc k) (gains_of values) (omega arith) (gains_of-AllNonneg o values) in
      let loss =
        average_nonneg r c (suc k) (losses_of values) (omega arith)
          (losses_of-AllNonneg o values) in
      let known = rsi_of-InPercent o r c _ _ gain loss in ground arith
