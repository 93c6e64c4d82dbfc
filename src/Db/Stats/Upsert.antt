-- ===== src/Db/Stats/Upsert.antt =====
-- The statistics table as a dictionary under update.
use auto_trade_stock_demo.Prelude.{
  ℕ, String, false, Option, none, some, List, [], ◌∷◌, ◌++◌, Dict, insert, ◌≡◌, refl, ap, sym, ◌∙◌,
  ◌==◌, Bool-cases, inl, inr,
}
use auto_trade_stock_demo.Db.Rows.{Database, SymbolStatsRow, next_id}
use auto_trade_stock_demo.Db.Stats.{
  overwrite, or_added, put_stats, put_all, new_stats, upsert_symbol_stats,
}

module _ {F : Type 0} where
  -- The table as a dictionary: the value and the date of each symbol.
  unfoldable pub view : List (SymbolStatsRow F) → Dict (F × ℕ)
  view [] = []
  view (r ∷ rs) = (r.symbol, (r.adv20_krw, r.updated_trade_date)) ∷ view rs

  -- The dictionary after an update with the statistics of a date.
  unfoldable pub updated : Dict (F × ℕ) → Dict F → ℕ → Dict (F × ℕ)
  updated t [] d = t
  updated t ((s, adv) ∷ stats) d = updated (insert s (adv, d) t) stats d

  view-append :
      (rows : List (SymbolStatsRow F)) (r : SymbolStatsRow F)
      → view (rows ++ r ∷ []) ≡ view rows ++ (r.symbol, (r.adv20_krw, r.updated_trade_date)) ∷ []
  unfolding view
  view-append [] r = refl
  view-append (q ∷ rows) r =
      ap (λ (t : Dict (F × ℕ)). (q.symbol, (q.adv20_krw, q.updated_trade_date)) ∷ t)
        (view-append rows r)

  -- The overwritten rows, or that there are none, against the dictionary of the rows.
  abbrev Overwrites : Option (List (SymbolStatsRow F)) → String → F × ℕ → Dict (F × ℕ) → Type 0
  Overwrites none s v t = insert s v t ≡ t ++ (s, v) ∷ []
  Overwrites (some q) s v t = view q ≡ insert s v t

  kept_row :
      (r : SymbolStatsRow F) (o : Option (List (SymbolStatsRow F))) (s : String) (v : F × ℕ)
      (t : Dict (F × ℕ))
      → (r.symbol == s) ≡ false
      → Overwrites o s v t
      → Overwrites
          (elim o [ none ↦ none | some q ↦ some (r ∷ q) ])
          s
          v
          ((r.symbol, (r.adv20_krw, r.updated_trade_date)) ∷ t)
  unfolding insert view
  kept_row r none s v t other h =
      rw other (ap (λ (q : Dict (F × ℕ)). (r.symbol, (r.adv20_krw, r.updated_trade_date)) ∷ q) h)
  kept_row r (some q) s v t other h =
      rw other (ap (λ (p : Dict (F × ℕ)). (r.symbol, (r.adv20_krw, r.updated_trade_date)) ∷ p) h)

  overwrite-Overwrites :
      (rows : List (SymbolStatsRow F)) (s : String) (adv : F) (d : ℕ)
      → Overwrites (overwrite rows s adv d) s (adv, d) (view rows)
  unfolding overwrite insert view
  overwrite-Overwrites [] s adv d = refl
  overwrite-Overwrites (r ∷ rows) s adv d = elim (Bool-cases (r.symbol == s)) [
    | inl e ↦ rw e (rw e refl)
    | inr e ↦ rw e (
        kept_row r (overwrite rows s adv d) s (adv, d) (view rows) e
          (overwrite-Overwrites rows s adv d))
  ]

  added-insert :
      (rows : List (SymbolStatsRow F)) (o : Option (List (SymbolStatsRow F))) (s : String) (adv : F)
      (d : ℕ)
      → Overwrites o s (adv, d) (view rows)
      → view (or_added rows o s adv d) ≡ insert s (adv, d) (view rows)
  added-insert rows none s adv d h = view-append rows (new_stats (next_id rows) s adv d) ∙ sym h
  added-insert rows (some q) s adv d h = h

  all_updated :
      (rows : List (SymbolStatsRow F)) (stats : Dict F) (d : ℕ)
      → view (put_all rows stats d) ≡ updated (view rows) stats d
  unfolding put_all put_stats updated
  all_updated rows [] d = refl
  all_updated rows ((s, adv) ∷ stats) d =
      all_updated (put_stats rows s adv d) stats d
      ∙ ap (λ t. updated t stats d)
          (added-insert rows (overwrite rows s adv d) s adv d (overwrite-Overwrites rows s adv d))

  -- An upsert of the statistics makes of the table, as a dictionary, what the updates of a
  -- dictionary make of it, one symbol after the other.
  pub upsert_symbol_stats-updated :
      {D : Type 0} (db : Database F D) (stats : Dict F) (d : ℕ)
      → view (upsert_symbol_stats db stats d).symbol_stats ≡ updated (view db.symbol_stats) stats d
  unfolding upsert_symbol_stats
  upsert_symbol_stats-updated db stats d = all_updated db.symbol_stats stats d
