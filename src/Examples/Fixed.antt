-- ===== src/Examples/Fixed.antt =====
-- Fixed-point numbers of four decimal places, rounded towards zero: one arithmetic that meets the
-- laws of `Numeric`, on which the definitions run.
use Prim.Native.Nat.{◌+◌ as nat_add, ◌-◌ as nat_sub, ◌*◌ as nat_mul, ◌/◌ as nat_div, ◌^◌ as nat_pow}
use auto_trade_stock_demo.Prelude.{
  ℕ, zero, suc, ◌<◌, ◌≤◌, Bool, true, false, not, ◌≡◌, refl, arith, leb, if◌then◌else◌,
}
use native.Mathlib.Nat.{mul-le-mul_left, div-lt_iff_lt-mul, div-mul-le_self, le-div_iff_mul-le}
use auto_trade_stock_demo.Numeric.{Numeric, IsOrdered, IsRounded, IsScaled, IsFloored}

-- `negsuc m` is -(m + 1) / 10000.
pub data Fixed : Type 0 where
  pos : ℕ → Fixed
  negsuc : ℕ → Fixed

abbrev pub pos_part : Fixed → ℕ
pos_part (pos m) = m
pos_part (negsuc m) = 0

abbrev pub neg_part : Fixed → ℕ
neg_part (pos m) = 0
neg_part (negsuc m) = suc m

abbrev difference : ℕ → ℕ → Fixed
difference a b = if leb b a then pos (nat_sub a b) else negsuc (nat_sub (nat_sub b a) 1)

abbrev signed : Bool → ℕ → Fixed
signed false m = pos m
signed true zero = pos 0
signed true (suc m) = negsuc m

abbrev product_sign : Fixed → Fixed → Bool
product_sign (pos a) (pos b) = false
product_sign (pos a) (negsuc b) = true
product_sign (negsuc a) (pos b) = true
product_sign (negsuc a) (negsuc b) = false

abbrev magnitude : Fixed → ℕ
magnitude a = nat_add (pos_part a) (neg_part a)

abbrev whole : Fixed → Fixed
whole (pos m) = pos (nat_mul (nat_div m 10000) 10000)
whole (negsuc m) = signed true (nat_mul (nat_div (suc m) 10000) 10000)

abbrev fix_le : Fixed → Fixed → Bool
fix_le a b = leb (nat_add (pos_part a) (neg_part b)) (nat_add (pos_part b) (neg_part a))

abbrev fix_add : Fixed → Fixed → Fixed
fix_add a b = difference (nat_add (pos_part a) (pos_part b)) (nat_add (neg_part a) (neg_part b))

abbrev fix_sub : Fixed → Fixed → Fixed
fix_sub a b = difference (nat_add (pos_part a) (neg_part b)) (nat_add (neg_part a) (pos_part b))

abbrev fix_mul : Fixed → Fixed → Fixed
fix_mul a b = signed (product_sign a b) (nat_div (nat_mul (magnitude a) (magnitude b)) 10000)

abbrev fix_div : Fixed → Fixed → Fixed
fix_div a b = signed (product_sign a b) (nat_div (nat_mul (magnitude a) 10000) (magnitude b))

instance abbrev pub fixed_numeric : Numeric Fixed
fixed_numeric = record {
  lit = λ m k. pos (nat_div (nat_mul m 10000) (nat_pow 10 k));
  add = fix_add;
  sub = fix_sub;
  mul = fix_mul;
  div = fix_div;
  neg = λ a. difference (neg_part a) (pos_part a);
  le = fix_le;
  floor = whole;
}

pub fixed-IsOrdered : IsOrdered Fixed
fixed-IsOrdered = record { le_total = λ a b. ground arith; le_trans = λ a b c. ground arith }

fixed_add_nonneg :
    (a b : Fixed)
    → fix_le (pos 0) a ≡ true
    → fix_le (pos 0) b ≡ true
    → fix_le (pos 0) (fix_add a b) ≡ true
fixed_add_nonneg a b p q = ground arith

fixed_sub_nonneg : (a b : Fixed) → fix_le b a ≡ true → fix_le (pos 0) (fix_sub a b) ≡ true
fixed_sub_nonneg a b p = ground arith

fixed_sub_nonpos : (a b : Fixed) → fix_le a b ≡ true → fix_le (fix_sub a b) (pos 0) ≡ true
fixed_sub_nonpos a b p = ground arith

fixed_mul_nonneg :
    (a b : Fixed)
    → fix_le (pos 0) a ≡ true
    → fix_le (pos 0) b ≡ true
    → fix_le (pos 0) (fix_mul a b) ≡ true
fixed_mul_nonneg (pos a) (pos b) p q = ground arith
fixed_mul_nonneg (negsuc a) b p q = ground arith
fixed_mul_nonneg a (negsuc b) p q = ground arith

fixed_div_nonneg :
    (a b : Fixed)
    → fix_le (pos 0) a ≡ true
    → fix_le b (pos 0) ≡ false
    → fix_le (pos 0) (fix_div a b) ≡ true
fixed_div_nonneg (pos a) (pos b) p q = ground arith
fixed_div_nonneg (negsuc a) b p q = ground arith
fixed_div_nonneg a (negsuc b) p q = ground arith

signed_nonpos : (m : ℕ) → fix_le (signed true m) (pos 0) ≡ true
signed_nonpos zero = refl
signed_nonpos (suc m) = ground arith

fixed_div_nonpos :
    (a b : Fixed)
    → fix_le a (pos 0) ≡ true
    → fix_le b (pos 0) ≡ false
    → fix_le (fix_div a b) (pos 0) ≡ true
fixed_div_nonpos (pos a) (pos b) p q = ground arith
fixed_div_nonpos (negsuc a) (pos b) p q =
    signed_nonpos (nat_div (nat_mul (nat_add 0 (suc a)) 10000) (nat_add b 0))
fixed_div_nonpos a (negsuc b) p q = ground arith

fixed_add_pos :
    (a b : Fixed)
    → not (fix_le a (pos 0)) ≡ true
    → not (fix_le b (pos 0)) ≡ true
    → not (fix_le (fix_add a b) (pos 0)) ≡ true
fixed_add_pos a b p q = ground arith

fixed_add_ge : (a b : Fixed) → fix_le (pos 0) b ≡ true → fix_le a (fix_add a b) ≡ true
fixed_add_ge a b p = ground arith

fixed_sub_le : (a b : Fixed) → fix_le (pos 0) b ≡ true → fix_le (fix_sub a b) a ≡ true
fixed_sub_le a b p = ground arith

pub fixed-IsRounded : IsRounded Fixed
fixed-IsRounded = record {
  add_nonneg = fixed_add_nonneg;
  add_pos = fixed_add_pos;
  add_ge = fixed_add_ge;
  sub_le = fixed_sub_le;
  sub_nonneg = fixed_sub_nonneg;
  sub_nonpos = fixed_sub_nonpos;
  mul_nonneg = fixed_mul_nonneg;
  div_nonpos = λ a b p q. fixed_div_nonpos a b p (unnot _ q);
  div_nonneg = λ a b p q. fixed_div_nonneg a b p (unnot _ q);
}
  where
    unnot : (b : Bool) → not b ≡ true → b ≡ false
    unnot b h = ground arith

fixed_lit_nonneg :
    (m k : ℕ) → fix_le (pos 0) (pos (nat_div (nat_mul m 10000) (nat_pow 10 k))) ≡ true
fixed_lit_nonneg m k = ground arith

fixed_dec_pos :
    (m : ℕ) → 0 < m → not (fix_le (pos (nat_div (nat_mul m 10000) (nat_pow 10 0))) (pos 0)) ≡ true
fixed_dec_pos m h = ground arith

fixed_mul_le :
    (a b : Fixed)
    → fix_le (pos 0) a ≡ true
    → fix_le b (pos 10000) ≡ true
    → fix_le (fix_mul a b) a ≡ true
fixed_mul_le (pos a) (pos b) p q =
    let bound : nat_mul a b ≤ nat_mul a 10000 = mul-le-mul_left a (ground arith) in ground arith
fixed_mul_le (negsuc a) b p q = ground arith
fixed_mul_le (pos a) (negsuc b) p q =
    ground (arith, signed_nonpos (nat_div (nat_mul (nat_add a 0) (suc b)) 10000))

fixed_mul_nonpos :
    (a b : Fixed)
    → fix_le (pos 0) a ≡ true
    → fix_le b (pos 0) ≡ true
    → fix_le (fix_mul a b) (pos 0) ≡ true
fixed_mul_nonpos (pos a) (pos zero) p q = ground arith
fixed_mul_nonpos (pos a) (pos (suc b)) p q = ground arith
fixed_mul_nonpos (negsuc a) b p q = ground arith
fixed_mul_nonpos (pos a) (negsuc b) p q =
    signed_nonpos (nat_div (nat_mul (nat_add a 0) (nat_add 0 (suc b))) 10000)

div_le_self : (a b : ℕ) → 10000 ≤ b → nat_div (nat_mul a 10000) b ≤ a
div_le_self a b h =
    let bound : nat_mul a 10000 ≤ nat_mul a b = mul-le-mul_left a h in
    let below : nat_mul a 10000 < nat_mul (nat_add a 1) b = omega (arith, bound) in
    let small =
      (div-lt_iff_lt-mul {k = b} {x = nat_mul a 10000} {y = nat_add a 1} (omega arith)).1 below in
    omega (arith, small)

fixed_div_le :
    (a b : Fixed)
    → fix_le (pos 0) a ≡ true
    → fix_le (pos 10000) b ≡ true
    → fix_le (fix_div a b) a ≡ true
fixed_div_le (pos a) (pos b) p q = ground (arith, div_le_self a b (ground arith))
fixed_div_le (negsuc a) b p q = ground arith
fixed_div_le (pos a) (negsuc b) p q = ground arith

pub fixed-IsScaled : IsScaled Fixed
fixed-IsScaled = record {
  lit_nonneg = fixed_lit_nonneg;
  dec_pos = fixed_dec_pos;
  mul_le = fixed_mul_le;
  mul_nonpos = fixed_mul_nonpos;
  div_le = fixed_div_le;
}

fixed_floor_nonpos : (a : Fixed) → fix_le a (pos 0) ≡ true → fix_le (whole a) (pos 0) ≡ true
fixed_floor_nonpos (pos m) p = ground arith
fixed_floor_nonpos (negsuc m) p = signed_nonpos (nat_mul (nat_div (suc m) 10000) 10000)

fixed_floor_le : (a : Fixed) → fix_le (pos 0) a ≡ true → fix_le (whole a) a ≡ true
fixed_floor_le (pos m) p = ground arith
fixed_floor_le (negsuc m) p = ground arith

div_le_div : (a b p : ℕ) → a ≤ b → 0 < p → nat_div a p ≤ nat_div b p
div_le_div a b p h k =
    let total : nat_mul (nat_div a p) p ≤ a = div-mul-le_self a p in
    (le-div_iff_mul-le {k = p} {x = nat_div a p} {y = b} k).1 (omega (arith, total))

fixed_div_mono :
    (a b p : Fixed)
    → fix_le (pos 0) a ≡ true
    → fix_le a b ≡ true
    → not (fix_le p (pos 0)) ≡ true
    → fix_le (fix_div a p) (fix_div b p) ≡ true
fixed_div_mono (pos a) (pos b) (pos p) z h k =
    ground (arith, div_le_div (nat_mul a 10000) (nat_mul b 10000) p (ground arith) (ground arith))
fixed_div_mono (negsuc a) b p z h k = ground arith
fixed_div_mono (pos a) (negsuc b) p z h k = ground arith
fixed_div_mono (pos a) (pos b) (negsuc p) z h k = ground arith

pub fixed-IsFloored : IsFloored Fixed
fixed-IsFloored = record {
  floor_nonpos = fixed_floor_nonpos;
  div_mono = fixed_div_mono;
  floor_le = fixed_floor_le;
}
