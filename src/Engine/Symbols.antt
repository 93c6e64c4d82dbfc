-- ===== src/Engine/Symbols.antt =====
-- The sources of symbols (server/app/engine/symbols.py): normalisation, rotation and the choice of
-- the symbols of a tick. Python's string methods and the pattern of a code are an interface; a
-- source is the list of codes that it answers.
pub mod Resolution
use Prim.Native.Nat.{◌+◌, ◌-◌, ◌*◌, ◌%◌}
use auto_trade_stock_demo.Prelude.{
  ℕ, zero, suc, String, Bool, true, false, not, ◌&&◌, ◌||◌, Option, none, some, List, [], ◌∷◌, ◌++◌,
  contains, take, drop, length, leb, eqb, ltb, ◌==◌, if◌then◌else◌,
}

pub record CodeTexts : Type 0 where
  pub clean : String → String
  pub is_digit : String → Bool
  pub zfill : String → String
  pub matches : String → Bool

abbrev pub code_if : CodeTexts → String → Option String
code_if t s = if t.matches s then some s else none

-- `clean` is `strip().upper()`, `zfill` pads to six, and `matches` is `^[0-9A-Z]{6}$`.
unfoldable pub normalize_symbol : CodeTexts → String → Option String
normalize_symbol t raw =
    let s = t.clean raw in
    if s == "" then none else code_if t (if t.is_digit s then t.zfill s else s)

-- `if code not in seen: seen.add(code); result.append(code)`: the seen codes are those of the
-- result.
unfoldable pub add_code : List String → String → List String
add_code result code = if contains result code then result else result ++ code ∷ []

abbrev pub add_normal : List String → Option String → List String
add_normal result none = result
add_normal result (some code) = if code == "" then result else add_code result code

-- The loop over `include`.
unfoldable pub add_included : CodeTexts → List String → List String → List String
unfolding normalize_symbol add_code
add_included t [] result = result
add_included t (raw ∷ rest) result =
    add_included t rest (add_normal result (normalize_symbol t raw))

-- `items[k:] + items[:k]`, for `k = offset % len(items)`
unfoldable pub rotate : List String → ℕ → List String
rotate [] offset = []
rotate (i ∷ is) offset = let k = offset % length (i ∷ is) in drop k (i ∷ is) ++ take k (i ∷ is)

abbrev pub is_full : Option ℕ → List String → Bool
is_full none result = false
is_full (some cap) result = leb cap (length result)

-- The loop that fills up to the cap.
unfoldable pub fill : Option ℕ → List String → List String → List String
unfolding add_code
fill cap [] result = result
fill cap (c ∷ cs) result =
    let rest = fill cap cs (add_code result c) in if is_full cap result then result else rest

-- `resolve_symbols`, for the codes of the source.
unfoldable pub resolve_symbols : CodeTexts → List String → Option ℕ → List String → ℕ → List String
unfolding add_included rotate fill
resolve_symbols t codes limit include offset =
    fill limit (if eqb offset 0 then codes else rotate codes offset) (add_included t include [])

-- `[c for c in seed_codes if c not in fresh]`
unfoldable pub stale_of : List String → List String → List String
stale_of fresh [] = []
stale_of fresh (c ∷ cs) =
    let rest = stale_of fresh cs in if contains fresh c then rest else c ∷ rest

-- `max(1, k)`
abbrev pub at_least_one : ℕ → ℕ
at_least_one k = if ltb 1 k then k else 1

-- `resolve_universe`, for the rounded share of the exploration, `ceil(limit * explore_ratio)`.
unfoldable pub resolve_universe :
    CodeTexts → List String → ℕ → List String → ℕ → List String → List String → ℕ → List String
unfolding add_included rotate fill stale_of
resolve_universe t seed limit include tick_count adv_pool fresh share =
    let n_explore = at_least_one share in
    let n_exploit = limit - n_explore in
    let included = add_included t include [] in
    let exploited =
      fill (some (length included + n_exploit))
        (rotate adv_pool (tick_count * at_least_one n_exploit)) included in
    let explored =
      fill (some limit) (rotate (stale_of fresh seed) (tick_count * n_explore)) exploited in
    fill (some limit) (rotate seed (tick_count * limit)) explored

-- `StaticSymbolSource(codes)`: its codes.
unfoldable pub static_source : CodeTexts → List String → List String
unfolding add_included
static_source t codes = add_included t codes []

pub record SymbolEntry : Type 0 where
  pub code : String
  pub name : String
  pub market : Option String

-- A row of the seed file: a code, or an object with its code (empty where it has none), its name
-- (empty likewise) and its market (`none` where it has none or an empty one).
pub data SeedRow : Type 0 where
  code_row : String → SeedRow
  full_row : String → String → Option String → SeedRow

abbrev in_markets : (String → String) → Option (List String) → Option String → Bool
in_markets upper none market = true
in_markets upper (some ms) none = contains ms (upper "")
in_markets upper (some ms) (some market) = contains ms (upper market)

-- The entry of a row that is of a wanted market and not seen before.
abbrev entry_if :
    (String → String)
    → Option (List String)
    → List String
    → Option String
    → String
    → Option String
    → Option SymbolEntry
entry_if upper markets seen none name market = none
entry_if upper markets seen (some code) name market =
    if code == "" || contains seen code
    then none
    else if in_markets upper markets market
    then some (record { code = code; name = name; market = market })
    else none

unfoldable pub read_row :
    CodeTexts
    → (String → String)
    → (String → String)
    → Option (List String)
    → List String
    → SeedRow
    → Option SymbolEntry
unfolding normalize_symbol
read_row t strip upper markets seen (code_row raw) =
    entry_if upper markets seen (normalize_symbol t raw) "" none
read_row t strip upper markets seen (full_row raw name market) =
    entry_if upper markets seen (normalize_symbol t raw) (strip name) market

abbrev add_entry : List String → Option SymbolEntry → List String
add_entry seen none = seen
add_entry seen (some e) = seen ++ e.code ∷ []

abbrev keep_entry : Option SymbolEntry → List SymbolEntry → List SymbolEntry
keep_entry none rest = rest
keep_entry (some e) rest = e ∷ rest

-- `FileSymbolSource.symbols`, for the rows of the file.
unfoldable pub file_symbols :
    CodeTexts
    → (String → String)
    → (String → String)
    → Option (List String)
    → List SeedRow
    → List String
    → List SymbolEntry
unfolding read_row
file_symbols t strip upper markets [] seen = []
file_symbols t strip upper markets (row ∷ rows) seen =
    let entry = read_row t strip upper markets seen row in
    keep_entry entry (file_symbols t strip upper markets rows (add_entry seen entry))
