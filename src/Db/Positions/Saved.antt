-- ===== src/Db/Positions/Saved.antt =====
-- What is loaded of the positions after a snapshot of them was saved.
use auto_trade_stock_demo.Prelude.{
  ℕ, false, Option, some, List, [], ◌∷◌, ◌++◌, ◌≡◌, refl, ◌∙◌, Dict, insert, length, eqb, get_last?,
  length-append, arith, ◌≤◌, ◌<◌,
}
use auto_trade_stock_demo.Clock.{DateTime, astimezone}
use auto_trade_stock_demo.Orders.Reconcile.{PositionSnapshot}
use auto_trade_stock_demo.Db.Rows.{Columns, KeepsValues, Database, PositionRow, next_id, utc}
use auto_trade_stock_demo.Db.Ledger.{text_of}
use auto_trade_stock_demo.Db.Positions.{
  add_positions, save_positions_snapshot, quantities_of, load_latest_positions, current_of,
}

-- Every row belongs to a snapshot that there is.
abbrev pub Attached : List PositionRow → ℕ → Type 0
Attached [] k = Unit
Attached (r ∷ rs) k = (r.snapshot_id ≤ k) × Attached rs k

module _ {D : Type 0} (c : Columns D) (k : KeepsValues c) where
  old_rows :
      (rows : List PositionRow) (last head : ℕ) (d : Option (Dict D))
      → last < head
      → Attached rows last
      → quantities_of c rows head d ≡ d
  unfolding quantities_of
  old_rows [] last head d l a = refl
  old_rows (r ∷ rows) last head d l (h, a) =
      let other : eqb r.snapshot_id head ≡ false = ground arith in
      rw other (old_rows rows last head d l a)

  quantities_of-append :
      (rows : List PositionRow) (r : PositionRow) (head : ℕ) (d : Option (Dict D))
      → quantities_of c (rows ++ r ∷ []) head d
        ≡ quantities_of c (r ∷ []) head (quantities_of c rows head d)
  unfolding quantities_of
  quantities_of-append [] r head d = refl
  quantities_of-append (q ∷ rows) r head d = quantities_of-append rows r head _

  new_rows :
      (items : List (PositionSnapshot D)) (rows : List PositionRow) (head : ℕ) (d : Dict D)
      → quantities_of c rows head (some []) ≡ some d
      → quantities_of c (add_positions c rows head items) head (some []) ≡ some (current_of items d)
  unfolding add_positions current_of quantities_of
  new_rows [] rows head d h = h
  new_rows (it ∷ items) rows head d h =
      new_rows items _ head (insert it.symbol it.quantity d)
        (quantities_of-append rows _ head (some []) ∙ rw h (one_row rows it head d))
    where
      one_row :
          (rows : List PositionRow) (it : PositionSnapshot D) (head : ℕ) (d : Dict D)
          → quantities_of c
              (record {
                id = next_id rows;
                snapshot_id = head;
                symbol = it.symbol;
                quantity = c.texts.str it.quantity;
                avg_price = text_of c it.avg_price;
                currency = it.currency;
              }
                ∷ [])
              head
              (some d)
            ≡ some (insert it.symbol it.quantity d)
      one_row rows it head d = rw (k.reads_back.decimal-str it.quantity) (ground arith)

  next_id_le {ℓ} : {A : Type ℓ} (rows : List A) (r : A) → next_id rows ≤ length (rows ++ r ∷ [])
  next_id_le rows r = omega (arith, length-append rows (r ∷ []))

  Attached-mono :
      (rows : List PositionRow) (last head : ℕ)
      → last ≤ head
      → Attached rows last
      → Attached rows head
  Attached-mono [] last head l a = tt
  Attached-mono (r ∷ rows) last head l (h, a) = (omega arith, Attached-mono rows last head l a)

  Attached-append :
      (rows : List PositionRow) (r : PositionRow) (head : ℕ)
      → Attached rows head
      → r.snapshot_id ≤ head
      → Attached (rows ++ r ∷ []) head
  Attached-append [] r head a h = (h, tt)
  Attached-append (q ∷ rows) r head (b, a) h = (b, Attached-append rows r head a h)

  add_positions-Attached :
      (items : List (PositionSnapshot D)) (rows : List PositionRow) (head : ℕ)
      → Attached rows head
      → Attached (add_positions c rows head items) head
  unfolding add_positions
  add_positions-Attached [] rows head a = a
  add_positions-Attached (it ∷ items) rows head a =
      add_positions-Attached items _ head (Attached-append rows _ head a (omega arith))

  last_snapshot {ℓ} : {A : Type ℓ} (rows : List A) (r : A) → get_last? (rows ++ r ∷ []) ≡ some r
  last_snapshot [] r = refl
  last_snapshot (q ∷ []) r = refl
  last_snapshot (q ∷ p ∷ rows) r = last_snapshot (p ∷ rows) r

  -- If the columns keep their values and every row of a position belongs to a snapshot that
  -- there is, a snapshot that was saved is loaded again as the latest one, at its instant and
  -- with the quantities of its items, also if it has none.
  pub load_latest_positions-save_positions_snapshot :
      {F : Type 0} (db : Database F D) (ts : DateTime) (items : List (PositionSnapshot D))
      → Attached db.positions (length db.position_snapshots)
      → load_latest_positions c (save_positions_snapshot c db ts items).0
        ≡ some (some (utc ts.instant, current_of items []))
  unfolding load_latest_positions save_positions_snapshot astimezone
  load_latest_positions-save_positions_snapshot db ts items a =
      let head = next_id db.position_snapshots in
      let old : quantities_of c db.positions head (some []) ≡ some [] =
        old_rows db.positions (length db.position_snapshots) head (some []) (omega arith) a in
      rw
        (
          last_snapshot db.position_snapshots _,
          new_rows items db.positions head [] old,
          k.timestamp_utc ts.instant,
        )
        refl

  -- Saving a snapshot keeps every position attached to a snapshot that there is.
  pub save_positions_snapshot-Attached :
      {F : Type 0} (db : Database F D) (ts : DateTime) (items : List (PositionSnapshot D))
      → Attached db.positions (length db.position_snapshots)
      → Attached
          (save_positions_snapshot c db ts items).0.positions
          (length (save_positions_snapshot c db ts items).0.position_snapshots)
  unfolding save_positions_snapshot
  save_positions_snapshot-Attached db ts items a =
      Attached-mono _ (next_id db.position_snapshots) _ (next_id_le db.position_snapshots _) (
        add_positions-Attached items db.positions (next_id db.position_snapshots)
          (Attached-mono db.positions (length db.position_snapshots) _ (omega arith) a))
