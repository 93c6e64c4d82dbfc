-- ===== src/Prelude/Lists.antt =====
-- Lengths and slices of lists over the native numbers.
use Prim.Native.Nat.{ℕ, zero, suc, ◌+◌, ◌-◌, ◌≤◌}
use mathlib.Core.Path.{◌≡◌, refl}
use mathlib.Core.Option.{Option, none, some}
use mathlib.Core.List.{List, [], ◌∷◌, ◌++◌}
use native.Mathlib.Omega.{arith}

module _ {ℓ} {A : Type ℓ} where
  abbrev pub length : List A → ℕ
  length [] = 0
  length (x ∷ xs) = suc (length xs)

  -- `xs[:k]`
  unfoldable pub take : ℕ → List A → List A
  take zero xs = []
  take (suc k) [] = []
  take (suc k) (x ∷ xs) = x ∷ take k xs

  -- `xs[k:]`
  unfoldable pub drop : ℕ → List A → List A
  drop zero xs = xs
  drop (suc k) [] = []
  drop (suc k) (x ∷ xs) = drop k xs

  -- `xs[-k:]`, for k above zero.
  unfoldable pub take_last : ℕ → List A → List A
  unfolding drop
  take_last k xs = drop (length xs - k) xs

  -- `xs[i]`
  abbrev pub get_elem? : List A → ℕ → Option A
  get_elem? [] i = none
  get_elem? (x ∷ xs) zero = some x
  get_elem? (x ∷ xs) (suc i) = get_elem? xs i

  -- `xs[-1]`
  abbrev pub get_last? : List A → Option A
  get_last? [] = none
  get_last? (x ∷ []) = some x
  get_last? (x ∷ y ∷ xs) = get_last? (y ∷ xs)

  pub length-append : (xs ys : List A) → length (xs ++ ys) ≡ length xs + length ys
  length-append [] ys = omega arith
  length-append (x ∷ xs) ys = omega (arith, length-append xs ys)

  pub length-take : (k : ℕ) (xs : List A) → length (take k xs) ≤ k
  unfolding take
  length-take zero xs = omega arith
  length-take (suc k) [] = omega arith
  length-take (suc k) (x ∷ xs) = omega (arith, length-take k xs)

  drop-append : (k : ℕ) (xs ys : List A) → drop (length xs + k) (xs ++ ys) ≡ drop k ys
  unfolding drop
  drop-append k [] ys = let e : 0 + k ≡ k = omega arith in rw e refl
  drop-append k (x ∷ xs) ys =
      let e : suc (length xs) + k ≡ suc (length xs + k) = omega arith in rw e (drop-append k xs ys)

  -- What stands before the last `k` elements does not matter.
  pub take_last-append :
      (k : ℕ) (xs ys : List A) → k ≤ length ys → take_last k (xs ++ ys) ≡ take_last k ys
  unfolding take_last
  take_last-append k xs ys h =
      let e : length (xs ++ ys) - k ≡ length xs + (length ys - k) =
        omega (arith, length-append xs ys) in
      rw e (drop-append (length ys - k) xs ys)
