-- ===== src/Numeric/Laws.antt =====
-- What the program relies on: the order is total and transitive, and an operation whose exact
-- result has a sign rounds to a value of that sign.
use auto_trade_stock_demo.Prelude.{ℕ, ◌<◌, true, false, ◌≡◌, arith}
use auto_trade_stock_demo.Numeric.Ops.{Numeric, ◌+◌, ◌-◌, ◌*◌, ◌/◌, ◌<=◌, ◌>◌, dec, lit, floor}

-- The order of the finite values.
pub record IsOrdered (D : Type 0) ⦃n : Numeric D⦄ : Type 0 where
  pub le_total : (a b : D) → (a <= b) ≡ false → (b <= a) ≡ true
  pub le_trans : (a b c : D) → (a <= b) ≡ true → (b <= c) ≡ true → (a <= c) ≡ true

-- The signs of rounded results.
pub record IsRounded (D : Type 0) ⦃n : Numeric D⦄ : Type 0 where
  pub add_nonneg : (a b : D) → (dec 0 <= a) ≡ true → (dec 0 <= b) ≡ true → (dec 0 <= a + b) ≡ true
  pub add_pos : (a b : D) → (a > dec 0) ≡ true → (b > dec 0) ≡ true → (a + b > dec 0) ≡ true
  pub add_ge : (a b : D) → (dec 0 <= b) ≡ true → (a <= a + b) ≡ true
  pub sub_le : (a b : D) → (dec 0 <= b) ≡ true → (a - b <= a) ≡ true
  pub sub_nonneg : (a b : D) → (b <= a) ≡ true → (dec 0 <= a - b) ≡ true
  pub sub_nonpos : (a b : D) → (a <= b) ≡ true → (a - b <= dec 0) ≡ true
  pub mul_nonneg : (a b : D) → (dec 0 <= a) ≡ true → (dec 0 <= b) ≡ true → (dec 0 <= a * b) ≡ true
  pub div_nonpos : (a b : D) → (a <= dec 0) ≡ true → (b > dec 0) ≡ true → (a / b <= dec 0) ≡ true
  pub div_nonneg : (a b : D) → (dec 0 <= a) ≡ true → (b > dec 0) ≡ true → (dec 0 <= a / b) ≡ true

-- Literals, and what a factor or a divisor against one does to a size.
pub record IsScaled (D : Type 0) ⦃n : Numeric D⦄ : Type 0 where
  pub lit_nonneg : (m k : ℕ) → (dec {D = D} 0 <= lit m k) ≡ true
  pub dec_pos : (m : ℕ) → 0 < m → (dec {D = D} m > dec 0) ≡ true
  pub mul_le : (a b : D) → (dec 0 <= a) ≡ true → (b <= dec 1) ≡ true → (a * b <= a) ≡ true
  pub mul_nonpos : (a b : D) → (dec 0 <= a) ≡ true → (b <= dec 0) ≡ true → (a * b <= dec 0) ≡ true
  pub div_le : (a b : D) → (dec 0 <= a) ≡ true → (dec 1 <= b) ≡ true → (a / b <= a) ≡ true

-- A quotient keeps the order of dividends that are not negative, and a value rounded down to a whole number is not
-- above the value, nor above zero where the value is not.
pub record IsFloored (D : Type 0) ⦃n : Numeric D⦄ : Type 0 where
  pub div_mono :
      (a b p : D)
      → (dec 0 <= a) ≡ true
      → (a <= b) ≡ true
      → (p > dec 0) ≡ true
      → (a / p <= b / p) ≡ true
  pub floor_le : (a : D) → (dec 0 <= a) ≡ true → (floor a <= a) ≡ true
  pub floor_nonpos : (a : D) → (a <= dec 0) ≡ true → (floor a <= dec 0) ≡ true

module _ {D : Type 0} ⦃n : Numeric D⦄ (o : IsOrdered D) where
  pub le_refl : (a : D) → (a <= a) ≡ true
  le_refl a = ground (arith, o.le_total a a)

  -- What is above a value above zero is above zero.
  pub pos_of_le : (a b : D) → (a > dec 0) ≡ true → (a <= b) ≡ true → (b > dec 0) ≡ true
  pos_of_le a b p q =
      ground (arith, o.le_trans a b (dec 0), o.le_trans b (dec 0) a, o.le_total b (dec 0))
