-- ===== src/Db/Positions.antt =====
-- The snapshots of the positions (server/app/db/repo.py), which reconciliation compares with.
pub mod Saved
use auto_trade_stock_demo.Prelude.{
  ℕ, String, Bool, true, false, Option, none, some, List, [], ◌∷◌, ◌++◌, ◌≡◌, refl, ap, sym, ◌∙◌,
  Dict, insert, length, eqb, ltb, leb, get_last?, length-append, arith, ◌≤◌, ◌<◌, if◌then◌else◌,
}
use auto_trade_stock_demo.Clock.{DateTime, astimezone}
use auto_trade_stock_demo.Orders.Reconcile.{PositionSnapshot}
use auto_trade_stock_demo.Db.Rows.{
  Columns, KeepsValues, Database, PositionSnapshotRow, PositionRow, next_id, utc,
}
use auto_trade_stock_demo.Db.Ledger.{text_of}

module _ {D : Type 0} (c : Columns D) where
  unfoldable pub add_positions : List PositionRow → ℕ → List (PositionSnapshot D) → List PositionRow
  add_positions rows head [] = rows
  add_positions rows head (it ∷ items) =
      add_positions
        (rows
          ++ record {
            id = next_id rows;
            snapshot_id = head;
            symbol = it.symbol;
            quantity = c.texts.str it.quantity;
            avg_price = text_of c it.avg_price;
            currency = it.currency;
          }
            ∷ [])
        head items

  unfoldable pub save_positions_snapshot :
      {F : Type 0} → Database F D → DateTime → List (PositionSnapshot D) → Database F D × ℕ
  unfolding add_positions
  save_positions_snapshot db ts items =
      let head = next_id db.position_snapshots in
      (
        record db {
          position_snapshots =
              db.position_snapshots
              ++ record { id = head; ts = c.timestamp (astimezone ts 0); item_count = length items }
                ∷ [];
          positions = add_positions db.positions head items;
        },
        head,
      )

  abbrev put : PositionRow → Option D → Option (Dict D) → Option (Dict D)
  put r none d = none
  put r (some q) none = none
  put r (some q) (some d) = some (insert r.symbol q d)

  -- `{r.symbol: Decimal(r.quantity) for r in rows}`, of the rows of one snapshot; `none` where
  -- `Decimal` raises.
  unfoldable pub quantities_of : List PositionRow → ℕ → Option (Dict D) → Option (Dict D)
  quantities_of [] head d = d
  quantities_of (r ∷ rs) head d =
      quantities_of rs head
        (if eqb r.snapshot_id head then put r (c.texts.decimal r.quantity) d else d)

  abbrev with_time : ℕ → Option (Dict D) → Option (Option (DateTime × Dict D))
  with_time ts none = none
  with_time ts (some d) = some (some (utc ts, d))

  abbrev pub load_snapshot :
      List PositionRow → Option PositionSnapshotRow → Option (Option (DateTime × Dict D))
  load_snapshot rows none = some none
  load_snapshot rows (some head) = with_time head.ts (quantities_of rows head.id (some []))

  -- The latest snapshot, or that there is none; `none` outside stands for an exception.
  unfoldable pub load_latest_positions :
      {F : Type 0} → Database F D → Option (Option (DateTime × Dict D))
  unfolding quantities_of
  load_latest_positions db = load_snapshot db.positions (get_last? db.position_snapshots)

-- `{i.symbol: i.quantity for i in items}`
unfoldable pub current_of : {D : Type 0} → List (PositionSnapshot D) → Dict D → Dict D
current_of [] d = d
current_of (i ∷ is) d = current_of is (insert i.symbol i.quantity d)
