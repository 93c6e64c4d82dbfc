-- ===== src/Engine/Symbols/Resolution.antt =====
-- What the resolved symbols are: without repetition, the watch list first, and within the limit.
use Prim.Native.Nat.{◌+◌, ◌-◌, ◌*◌}
use auto_trade_stock_demo.Prelude.{
  ℕ, ◌≤◌, String, false, Option, none, some, List, [], ◌∷◌, ◌++◌, contains, contains-append, length,
  length-append, eqb, ◌==◌, ◌≡◌, ◌⊎◌, inl, inr, refl, arith, eq_iff, Bool-cases, if◌then◌else◌, ap,
  ◌∙◌,
}
use auto_trade_stock_demo.Engine.Symbols.{
  CodeTexts, normalize_symbol, add_code, add_normal, add_included, rotate, fill, is_full,
  resolve_symbols, resolve_universe, stale_of, at_least_one,
}

-- No code stands twice.
abbrev pub IsDistinct : List String → Type 0
IsDistinct [] = Unit
IsDistinct (x ∷ xs) = (contains xs x ≡ false) × IsDistinct xs

-- The first list starts the second.
abbrev pub Starts : List String → List String → Type 0
Starts xs ys = (zs : List String) × (ys ≡ xs ++ zs)

append-IsDistinct :
    (xs : List String) (c : String)
    → IsDistinct xs
    → contains xs c ≡ false
    → IsDistinct (xs ++ c ∷ [])
unfolding contains
append-IsDistinct [] c d h = (refl, tt)
append-IsDistinct (x ∷ xs) c (p, d) h = (
  ground (arith, contains-append xs (c ∷ []) x, eq_iff c x, eq_iff x c),
  append-IsDistinct xs c d (ground arith),
)

add_code-IsDistinct : (xs : List String) (c : String) → IsDistinct xs → IsDistinct (add_code xs c)
unfolding add_code
add_code-IsDistinct xs c d = elim (Bool-cases (contains xs c)) [
  | inl e ↦ rw e d
  | inr e ↦ rw e (append-IsDistinct xs c d e)
]

append_nil : (xs : List String) → xs ≡ xs ++ []
append_nil [] = refl
append_nil (x ∷ xs) = ap (λ ys. x ∷ ys) (append_nil xs)

append_assoc : (xs ys zs : List String) → (xs ++ ys) ++ zs ≡ xs ++ (ys ++ zs)
append_assoc [] ys zs = refl
append_assoc (x ∷ xs) ys zs = ap (λ l. x ∷ l) (append_assoc xs ys zs)

Starts-refl : (xs : List String) → Starts xs xs
Starts-refl xs = ([], append_nil xs)

Starts-trans : (xs ys zs : List String) → Starts xs ys → Starts ys zs → Starts xs zs
Starts-trans xs ys zs (a, e) (b, f) = (a ++ b, f ∙ ap (λ l. l ++ b) e ∙ append_assoc xs a b)

add_code-Starts : (xs : List String) (c : String) → Starts xs (add_code xs c)
unfolding add_code
add_code-Starts xs c = elim (Bool-cases (contains xs c)) [
  | inl e ↦ rw e (Starts-refl xs)
  | inr e ↦ rw e (c ∷ [], refl)
]

included-IsDistinct :
    (t : CodeTexts) (raws result : List String)
    → IsDistinct result
    → IsDistinct (add_included t raws result)
unfolding add_included
included-IsDistinct t [] result d = d
included-IsDistinct t (raw ∷ raws) result d =
    included-IsDistinct t raws _ (normal (normalize_symbol t raw))
  where
    normal : (c : Option String) → IsDistinct (add_normal result c)
    normal none = d
    normal (some c) = elim (Bool-cases (c == "")) [
      | inl e ↦ rw e d
      | inr e ↦ rw e (add_code-IsDistinct result c d)
    ]

fill-IsDistinct :
    (cap : Option ℕ) (codes result : List String)
    → IsDistinct result
    → IsDistinct (fill cap codes result)
unfolding fill
fill-IsDistinct cap [] result d = d
fill-IsDistinct cap (c ∷ cs) result d = elim (Bool-cases (is_full cap result)) [
  | inl e ↦ rw e d
  | inr e ↦ rw e (fill-IsDistinct cap cs (add_code result c) (add_code-IsDistinct result c d))
]

fill-Starts : (cap : Option ℕ) (codes result : List String) → Starts result (fill cap codes result)
unfolding fill
fill-Starts cap [] result = Starts-refl result
fill-Starts cap (c ∷ cs) result = elim (Bool-cases (is_full cap result)) [
  | inl e ↦ rw e (Starts-refl result)
  | inr e ↦
      rw e (
        Starts-trans result _ _ (add_code-Starts result c) (fill-Starts cap cs (add_code result c)))
]

length-add_code : (xs : List String) (c : String) → length (add_code xs c) ≤ length xs + 1
unfolding add_code
length-add_code xs c = ground (arith, length-append xs (c ∷ []))

length-fill :
    (cap : ℕ) (codes result : List String)
    → (length (fill (some cap) codes result) ≤ cap) ⊎ (fill (some cap) codes result ≡ result)
unfolding fill
length-fill cap [] result = inr refl
length-fill cap (c ∷ cs) result = elim (Bool-cases (is_full (some cap) result)) [
  | inl e ↦ rw e (inr refl)
  | inr e ↦ rw e (elim (length-fill cap cs (add_code result c)) [
    | inl small ↦ inl small
    | inr same ↦ inl (rw same (omega (arith, length-add_code result c, not_full result e)))
  ])
]
  where
    not_full : (r : List String) → is_full (some cap) r ≡ false → length r + 1 ≤ cap
    not_full r e = ground arith

-- The resolved symbols hold no code twice, start with those of the watch list, and are no more
-- than the limit, or else are those of the watch list alone.
pub resolve_symbols_lem :
    (t : CodeTexts) (codes include : List String) (limit offset : ℕ)
    → IsDistinct (resolve_symbols t codes (some limit) include offset)
      × Starts (add_included t include []) (resolve_symbols t codes (some limit) include offset)
      × ((length (resolve_symbols t codes (some limit) include offset) ≤ limit)
          ⊎ (resolve_symbols t codes (some limit) include offset ≡ add_included t include []))
unfolding resolve_symbols
resolve_symbols_lem t codes include limit offset =
    let first = add_included t include [] in
    let source = if eqb offset 0 then codes else rotate codes offset in
    (
      fill-IsDistinct (some limit) source first (included-IsDistinct t include [] tt),
      fill-Starts (some limit) source first,
      length-fill limit source first,
    )

pub resolve_universe-IsDistinct :
    (t : CodeTexts) (seed : List String) (limit : ℕ) (include : List String) (tick_count : ℕ)
    (adv_pool fresh : List String) (share : ℕ)
    → IsDistinct (resolve_universe t seed limit include tick_count adv_pool fresh share)
      × Starts
          (add_included t include [])
          (resolve_universe t seed limit include tick_count adv_pool fresh share)
unfolding resolve_universe
resolve_universe-IsDistinct t seed limit include tick_count adv_pool fresh share =
    let explore = at_least_one share in
    let exploit = limit - explore in
    let first = add_included t include [] in
    let cap = some (length first + exploit) in
    let pool = rotate adv_pool (tick_count * at_least_one exploit) in
    let stale = rotate (stale_of fresh seed) (tick_count * explore) in
    let rest = rotate seed (tick_count * limit) in
    let second = fill cap pool first in
    let third = fill (some limit) stale second in
    (
      fill-IsDistinct (some limit) rest third (
          fill-IsDistinct (some limit) stale second
            (fill-IsDistinct cap pool first (included-IsDistinct t include [] tt))),
      Starts-trans first second (fill (some limit) rest third) (fill-Starts cap pool first) (
          Starts-trans second third (fill (some limit) rest third)
            (fill-Starts (some limit) stale second) (fill-Starts (some limit) rest third)),
    )
