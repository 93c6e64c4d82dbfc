-- ===== src/Prelude/Sorted.antt =====
-- `sorted(set(xs))` on texts, by code points.
use Prim.Native.Nat.{Ordering}
use Prim.Native.String.{String, compare}
use mathlib.Core.Path.{◌≡◌, refl}
use mathlib.Core.Bool.{◌||◌}
use mathlib.Core.List.{List, [], ◌∷◌, ◌++◌}
use native.Mathlib.Omega.{arith}
use text.Mathlib.Text.{◌==◌}
use text.Mathlib.TextEquality.{eq_iff}
use auto_trade_stock_demo.Prelude.Booleans.{is_some}
use auto_trade_stock_demo.Prelude.Dicts.{contains, Dict, lookup, keys}

unfoldable pub insert_sorted : String → List String → List String
insert_sorted x [] = x ∷ []
insert_sorted x (y ∷ ys) = elim (compare x y) [
  | Ordering.lt ↦ x ∷ y ∷ ys
  | Ordering.eq ↦ y ∷ ys
  | Ordering.gt ↦ y ∷ insert_sorted x ys
]

unfoldable pub sorted_set : List String → List String
unfolding insert_sorted
sorted_set [] = []
sorted_set (x ∷ xs) = insert_sorted x (sorted_set xs)

contains-insert_sorted :
    (x a : String) (ys : List String) → contains (insert_sorted x ys) a ≡ (x == a || contains ys a)
unfolding insert_sorted contains
contains-insert_sorted x a [] = refl
contains-insert_sorted x a (y ∷ ys) =
    ground (arith, contains-insert_sorted x a ys, eq_iff x a, eq_iff y a, eq_iff x y)

-- Sorting and dropping repetitions keeps the members.
pub contains-sorted_set :
    (xs : List String) (a : String) → contains (sorted_set xs) a ≡ contains xs a
unfolding sorted_set contains
contains-sorted_set [] a = refl
contains-sorted_set (x ∷ xs) a =
    ground (arith, contains-insert_sorted x a (sorted_set xs), contains-sorted_set xs a)

module _ {ℓ} {V : Type ℓ} where
  -- The keys are the texts that are found.
  pub contains-keys : (d : Dict V) (a : String) → contains (keys d) a ≡ is_some (lookup a d)
  unfolding contains keys lookup
  contains-keys [] a = refl
  contains-keys ((j, v) ∷ d) a = ground (arith, contains-keys d a)

pub contains-append :
    (xs ys : List String) (a : String) → contains (xs ++ ys) a ≡ (contains xs a || contains ys a)
unfolding contains
contains-append [] ys a = refl
contains-append (x ∷ xs) ys a = ground (arith, contains-append xs ys a)
