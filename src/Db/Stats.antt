-- ===== src/Db/Stats.antt =====
-- The statistics of the symbols and the daily equity curve in the database (server/app/db/repo.py).
pub mod Upsert
use auto_trade_stock_demo.Prelude.{
  ℕ, String, Bool, true, false, Option, none, some, List, [], ◌∷◌, ◌++◌, Dict, take, ltb, eqb, leb,
  ◌==◌, map, if◌then◌else◌,
}
use auto_trade_stock_demo.Numeric.{Numeric, ◌<=◌}
use auto_trade_stock_demo.Db.Rows.{Columns, Database, SymbolStatsRow, PaperEquityRow, next_id}
use auto_trade_stock_demo.Db.Ledger.{has_text}

module _ {F : Type 0} where
  abbrev pub new_stats : ℕ → String → F → ℕ → SymbolStatsRow F
  new_stats i symbol adv d = record {
    id = i;
    symbol = symbol;
    adv20_krw = adv;
    updated_trade_date = d;
  }

  -- The row of this symbol is overwritten, or there is none.
  unfoldable pub overwrite :
      List (SymbolStatsRow F) → String → F → ℕ → Option (List (SymbolStatsRow F))
  overwrite [] symbol adv d = none
  overwrite (r ∷ rs) symbol adv d =
      let rest = overwrite rs symbol adv d in
      if r.symbol == symbol
      then some (record r { adv20_krw = adv; updated_trade_date = d } ∷ rs)
      else elim rest [ none ↦ none | some q ↦ some (r ∷ q) ]

  abbrev pub or_added :
      List (SymbolStatsRow F)
      → Option (List (SymbolStatsRow F))
      → String
      → F
      → ℕ
      → List (SymbolStatsRow F)
  or_added rows none symbol adv d = rows ++ new_stats (next_id rows) symbol adv d ∷ []
  or_added rows (some q) symbol adv d = q

  unfoldable pub put_stats : List (SymbolStatsRow F) → String → F → ℕ → List (SymbolStatsRow F)
  unfolding overwrite
  put_stats rows symbol adv d = or_added rows (overwrite rows symbol adv d) symbol adv d

  -- The loop over the statistics, whose symbols are distinct.
  unfoldable pub put_all : List (SymbolStatsRow F) → Dict F → ℕ → List (SymbolStatsRow F)
  unfolding put_stats
  put_all rows [] d = rows
  put_all rows ((symbol, adv) ∷ stats) d = put_all (put_stats rows symbol adv d) stats d

  unfoldable pub upsert_symbol_stats : {D : Type 0} → Database F D → Dict F → ℕ → Database F D
  unfolding put_all
  upsert_symbol_stats db stats d = record db { symbol_stats = put_all db.symbol_stats stats d }

  unfoldable pub fresh_of : List (SymbolStatsRow F) → ℕ → List String
  fresh_of [] cutoff = []
  fresh_of (r ∷ rs) cutoff =
      let rest = fresh_of rs cutoff in
      if ltb cutoff r.updated_trade_date then r.symbol ∷ rest else rest

  unfoldable pub load_fresh_symbols : {D : Type 0} → Database F D → ℕ → List String
  unfolding fresh_of
  load_fresh_symbols db cutoff = fresh_of db.symbol_stats cutoff

module _ {F : Type 0} ⦃m : Numeric F⦄ where
  -- Into rows in descending order; equal values keep the order of their rows.
  unfoldable pub insert_adv : SymbolStatsRow F → List (SymbolStatsRow F) → List (SymbolStatsRow F)
  insert_adv r [] = r ∷ []
  insert_adv r (q ∷ qs) =
      let rest = insert_adv r qs in if q.adv20_krw <= r.adv20_krw then r ∷ q ∷ qs else q ∷ rest

  unfoldable pub by_adv : List (SymbolStatsRow F) → List (SymbolStatsRow F)
  unfolding insert_adv
  by_adv [] = []
  by_adv (r ∷ rs) = insert_adv r (by_adv rs)

  abbrev symbols_of : List (SymbolStatsRow F) → List String
  symbols_of [] = []
  symbols_of (r ∷ rs) = r.symbol ∷ symbols_of rs

  unfoldable pub load_adv_pool : {D : Type 0} → Database F D → ℕ → List String
  unfolding by_adv
  load_adv_pool db size = symbols_of (take size (by_adv db.symbol_stats))

abbrev pub Day : Type 0 → Type 0
Day D = ℕ × D × Option D

-- `by_day[date] = value`, with the days in ascending order.
unfoldable pub put_day : {D : Type 0} → Day D → List (Day D) → List (Day D)
put_day x [] = x ∷ []
put_day x (y ∷ ys) =
    let rest = put_day x ys in
    if eqb x.0 y.0 then x ∷ ys else if ltb x.0 y.0 then x ∷ y ∷ ys else y ∷ rest

module _ {D : Type 0} (c : Columns D) where
  abbrev day_of : ℕ → Option D → Option (Option D) → Option (List (Day D)) → Option (List (Day D))
  day_of d none b days = none
  day_of d (some e) none days = none
  day_of d (some e) (some b) none = none
  day_of d (some e) (some b) (some days) = some (put_day (d, e, b) days)

  -- `Decimal(text) if text else None`; `none` where `Decimal` raises.
  abbrev optional : Option String → Option (Option D)
  optional none = some none
  optional (some t) =
      if t == ""
      then some none
      else elim (c.texts.decimal t) [ none ↦ none | some a ↦ some (some a) ]

  -- The last equity and benchmark of each day; `none` where `Decimal` raises.
  unfoldable pub daily : List PaperEquityRow → Option (List (Day D)) → Option (List (Day D))
  unfolding put_day
  daily [] days = days
  daily (r ∷ rs) days =
      daily rs (day_of r.trade_date (c.texts.decimal r.equity) (optional r.benchmark_price) days)

  unfoldable pub load_daily_equity : {F : Type 0} → Database F D → Option (List (Day D))
  unfolding daily
  load_daily_equity db = daily db.paper_equity (some [])
