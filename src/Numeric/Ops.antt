-- ===== src/Numeric/Ops.antt =====
-- The operations, and Python's operators for them.
use auto_trade_stock_demo.Prelude.{ℕ, Bool, not, ◌&&◌, Option, none, some, if◌then◌else◌}

-- `lit n k` is the literal n / 10^k, and `floor` rounds towards zero (ROUND_DOWN).
pub record Numeric (D : Type 0) : Type 0 where
  pub lit : ℕ → ℕ → D
  pub add : D → D → D
  pub sub : D → D → D
  pub mul : D → D → D
  pub div : D → D → D
  pub neg : D → D
  pub le : D → D → Bool
  pub floor : D → D

module _ {D : Type 0} ⦃n : Numeric D⦄ where
  infixl 65 ◌+◌ ◌-◌
  infixl 70 ◌*◌ ◌/◌
  infix 50 ◌<=◌ ◌>=◌ ◌>◌ ◌=?◌
  abbrev pub ◌+◌ : D → D → D
  a + b = n.add a b

  abbrev pub ◌-◌ : D → D → D
  a - b = n.sub a b

  abbrev pub ◌*◌ : D → D → D
  a * b = n.mul a b

  abbrev pub ◌/◌ : D → D → D
  a / b = n.div a b

  abbrev pub neg : D → D
  neg a = n.neg a

  abbrev pub ◌<=◌ : D → D → Bool
  a <= b = n.le a b

  abbrev pub ◌>=◌ : D → D → Bool
  a >= b = n.le b a

  abbrev pub ◌>◌ : D → D → Bool
  a > b = not (n.le a b)

  -- Equality of value: `Decimal("1.0") == Decimal("1")`.
  abbrev pub ◌=?◌ : D → D → Bool
  a =? b = n.le a b && n.le b a

  abbrev pub floor : D → D
  floor a = n.floor a

  -- `Decimal("0.10")` is `lit 10 2`.
  abbrev pub lit : ℕ → ℕ → D
  lit m k = n.lit m k

  -- `Decimal(m)`
  abbrev pub dec : ℕ → D
  dec m = n.lit m 0

  -- `min(a, b)` and `max(a, b)` keep the first of two equal values.
  abbrev pub min : D → D → D
  min a b = if b >= a then a else b

  abbrev pub max : D → D → D
  max a b = if b > a then b else a

  -- `bool(a)`: zero is falsy.
  abbrev pub truthy : D → Bool
  truthy a = not (a =? dec 0)

  -- `o or Decimal(0)`
  abbrev pub or_zero : Option D → D
  or_zero none = dec 0
  or_zero (some a) = if truthy a then a else dec 0
