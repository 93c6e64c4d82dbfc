-- ===== src/Db/Ledger/Unique.antt =====
-- The order table as a write-once map from the ids of the client.
use auto_trade_stock_demo.Prelude.{
  String, true, false, Option, some, List, [], ◌∷◌, ◌++◌, ◌≡◌, refl, ap, ◌∙◌, arith, ◌||◌, eq_iff,
  Bool-cases, ℕ, inl, inr,
}
use auto_trade_stock_demo.Clock.{DateTime}
use auto_trade_stock_demo.Engine.Pipeline.{TickResult}
use auto_trade_stock_demo.Db.Rows.{Columns, Database, OrderRow, next_id}
use auto_trade_stock_demo.Db.Ledger.{
  Stamped, is_duplicate, is_recorded, order_row, add_order, add_orders, record_tick,
}

-- No two rows have the same id of the client.
abbrev pub UniqueIds : {D : Type 0} → List (OrderRow D) → Type 0
UniqueIds [] = Unit
UniqueIds (r ∷ rs) = (is_recorded r.client_order_id rs ≡ false) × UniqueIds rs

-- Every result but the duplicates has a row.
abbrev pub AllRecorded : {D : Type 0} → List (OrderRow D) → List (Stamped D) → Type 0
AllRecorded rows [] = Unit
AllRecorded rows (r ∷ rs) =
    (is_duplicate r.result.status ≡ false → is_recorded r.result.client_order_id rows ≡ true)
    × AllRecorded rows rs

-- The rows are the old ones with others behind them.
abbrev pub Extends : {D : Type 0} → List (OrderRow D) → List (OrderRow D) → Type 0
Extends {D = D} old rows = (new : List (OrderRow D)) × (rows ≡ old ++ new)

is_recorded-append :
    {D : Type 0} (k : String) (rows new : List (OrderRow D))
    → is_recorded k (rows ++ new) ≡ (is_recorded k rows || is_recorded k new)
unfolding is_recorded
is_recorded-append k [] new = refl
is_recorded-append k (r ∷ rs) new = ground (arith, is_recorded-append k rs new)

UniqueIds-append :
    {D : Type 0} (rows : List (OrderRow D)) (r : OrderRow D)
    → UniqueIds rows
    → is_recorded r.client_order_id rows ≡ false
    → UniqueIds (rows ++ r ∷ [])
unfolding is_recorded
UniqueIds-append [] r u h = (refl, tt)
UniqueIds-append (q ∷ rows) r (fresh, u) h = (
  is_recorded-append q.client_order_id rows (r ∷ [])
      ∙ ground (
        arith,
        eq_iff r.client_order_id q.client_order_id,
        eq_iff q.client_order_id r.client_order_id,
      ),
  UniqueIds-append rows r u (ground arith),
)

append_assoc : {D : Type 0} (a b d : List (OrderRow D)) → a ++ b ++ d ≡ a ++ (b ++ d)
append_assoc [] b d = refl
append_assoc (x ∷ a) b d = ap (λ (q : List (OrderRow _)). x ∷ q) (append_assoc a b d)

append_nil : {D : Type 0} (a : List (OrderRow D)) → a ≡ a ++ []
append_nil [] = refl
append_nil (x ∷ a) = ap (λ (q : List (OrderRow _)). x ∷ q) (append_nil a)

recorded_self : {D : Type 0} (r : OrderRow D) → is_recorded r.client_order_id (r ∷ []) ≡ true
unfolding is_recorded
recorded_self r = ground (arith, eq_iff r.client_order_id r.client_order_id)

recorded_stays :
    {D : Type 0} (k : String) (old rows : List (OrderRow D))
    → Extends old rows
    → is_recorded k old ≡ true
    → is_recorded k rows ≡ true
recorded_stays k old rows (new, e) h = rw e (rw (is_recorded-append k old new) (ground arith))

module _ {D : Type 0} (c : Columns D) where
  pub add_order-Extends :
      (rows : List (OrderRow D)) (tick_id : Option ℕ) (r : Stamped D)
      → Extends rows (add_order c rows tick_id r)
  unfolding add_order
  add_order-Extends rows tick_id r = elim (Bool-cases (is_duplicate r.result.status)) [
    | inl d ↦ ([], rw d (append_nil rows))
    | inr d ↦ elim (Bool-cases (is_recorded r.result.client_order_id rows)) [
      | inl e ↦ ([], rw d (rw e (append_nil rows)))
      | inr e ↦ (order_row c (next_id rows) tick_id r ∷ [], rw d (rw e refl))
    ]
  ]

  add_order-UniqueIds :
      (rows : List (OrderRow D)) (tick_id : Option ℕ) (r : Stamped D)
      → UniqueIds rows
      → UniqueIds (add_order c rows tick_id r)
  unfolding add_order order_row
  add_order-UniqueIds rows tick_id r u = elim (Bool-cases (is_duplicate r.result.status)) [
    | inl d ↦ rw d u
    | inr d ↦ elim (Bool-cases (is_recorded r.result.client_order_id rows)) [
      | inl e ↦ rw d (rw e u)
      | inr e ↦ rw d (rw e (UniqueIds-append rows (order_row c (next_id rows) tick_id r) u e))
    ]
  ]

  add_order_records :
      (rows : List (OrderRow D)) (tick_id : Option ℕ) (r : Stamped D)
      → is_duplicate r.result.status ≡ false
      → is_recorded r.result.client_order_id (add_order c rows tick_id r) ≡ true
  unfolding add_order order_row
  add_order_records rows tick_id r d =
      elim (Bool-cases (is_recorded r.result.client_order_id rows)) [
        | inl e ↦ rw d (rw e e)
        | inr e ↦ rw d (
            rw e (
              is_recorded-append r.result.client_order_id rows _
              ∙ ground (arith, recorded_self (order_row c (next_id rows) tick_id r))))
      ]

  pub add_orders-Extends :
      (rows : List (OrderRow D)) (tick_id : Option ℕ) (rs : List (Stamped D))
      → Extends rows (add_orders c rows tick_id rs)
  unfolding add_orders
  add_orders-Extends rows tick_id [] = ([], append_nil rows)
  add_orders-Extends rows tick_id (r ∷ rs) =
      let (a, e) = add_order-Extends rows tick_id r in
      let (b, f) = add_orders-Extends (add_order c rows tick_id r) tick_id rs in
      (a ++ b, f ∙ ap (λ (q : List (OrderRow D)). q ++ b) e ∙ append_assoc rows a b)

  add_orders-UniqueIds :
      (rows : List (OrderRow D)) (tick_id : Option ℕ) (rs : List (Stamped D))
      → UniqueIds rows
      → UniqueIds (add_orders c rows tick_id rs)
  unfolding add_orders
  add_orders-UniqueIds rows tick_id [] u = u
  add_orders-UniqueIds rows tick_id (r ∷ rs) u =
      add_orders-UniqueIds (add_order c rows tick_id r) tick_id rs
        (add_order-UniqueIds rows tick_id r u)

  add_orders-AllRecorded :
      (rows : List (OrderRow D)) (tick_id : Option ℕ) (rs : List (Stamped D))
      → AllRecorded (add_orders c rows tick_id rs) rs
  unfolding add_orders
  add_orders-AllRecorded rows tick_id [] = tt
  add_orders-AllRecorded rows tick_id (r ∷ rs) = (
    λ d.
        recorded_stays r.result.client_order_id (add_order c rows tick_id r) _
          (add_orders-Extends (add_order c rows tick_id r) tick_id rs)
          (add_order_records rows tick_id r d),
    add_orders-AllRecorded (add_order c rows tick_id r) tick_id rs,
  )

  -- Results that all have rows already add none.
  add_orders_known :
      (rows : List (OrderRow D)) (tick_id : Option ℕ) (rs : List (Stamped D))
      → AllRecorded rows rs
      → add_orders c rows tick_id rs ≡ rows
  unfolding add_orders add_order
  add_orders_known rows tick_id [] a = refl
  add_orders_known rows tick_id (r ∷ rs) (k, a) =
      let known : add_order c rows tick_id r ≡ rows = ground arith in
      rw known (add_orders_known rows tick_id rs a)

  -- Recording the same results a second time, for any tick, changes no row.
  pub add_orders_twice :
      (rows : List (OrderRow D)) (first second : Option ℕ) (rs : List (Stamped D))
      → add_orders c (add_orders c rows first rs) second rs ≡ add_orders c rows first rs
  add_orders_twice rows first second rs =
      add_orders_known (add_orders c rows first rs) second rs (add_orders-AllRecorded rows first rs)

module _ {F D : Type 0} (c : Columns D) (show : F → String) where
  -- Recording a tick keeps the ids of the client unique, leaves every old row in place, and
  -- leaves a row for every result that is not a duplicate.
  pub record_tick-UniqueIds :
      (db : Database F D) (r : TickResult F D) (orders : List (Stamped D)) (started_at : DateTime)
      → UniqueIds db.orders
      → UniqueIds (record_tick c show db r orders started_at).0.orders
        × Extends db.orders (record_tick c show db r orders started_at).0.orders
        × AllRecorded (record_tick c show db r orders started_at).0.orders orders
  unfolding record_tick
  record_tick-UniqueIds db r orders started_at u = (
    add_orders-UniqueIds c db.orders (some (next_id db.ticks)) orders u,
    add_orders-Extends c db.orders (some (next_id db.ticks)) orders,
    add_orders-AllRecorded c db.orders (some (next_id db.ticks)) orders,
  )
