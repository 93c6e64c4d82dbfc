-- ===== src/Db/Ledger/Budget.antt =====
-- The limit on the buys of a day across ticks: the sum that the next tick reads is what the ticks
-- before it executed.
use auto_trade_stock_demo.Prelude.{
  ℕ, true, false, ◌&&◌, Option, none, some, List, [], ◌∷◌, ◌++◌, ◌≡◌, refl, ◌∙◌, arith, Bool-cases,
  inl, inr,
}
use auto_trade_stock_demo.Numeric.{Numeric, ◌+◌, truthy}
use auto_trade_stock_demo.Orders.Models.{
  OrderRequest, OrderResult, OrderStatus, Side, estimated_notional, notional_of, priced,
}
use auto_trade_stock_demo.Orders.Guardrails.{is_buy}
use auto_trade_stock_demo.Orders.Breaker.Persist.{ReadsBack}
use auto_trade_stock_demo.Engine.Pipeline.Cap.{add_bought, total_bought}
use auto_trade_stock_demo.Engine.Pipeline.Sizing.{is_accepted}
use auto_trade_stock_demo.Db.Rows.{Columns, OrderRow, next_id}
use auto_trade_stock_demo.Db.Ledger.{
  Stamped, is_duplicate, is_recorded, order_row, add_order, add_orders, trade_date_kst, dec_of,
  row_notional, sum_buys, is_used, is_buy_side, plus,
}

-- The results behind their times.
abbrev pub results_of : {D : Type 0} → List (Stamped D) → List (OrderResult D)
results_of [] = []
results_of (r ∷ rs) = r.result ∷ results_of rs

module _ {D : Type 0} ⦃n : Numeric D⦄ where
  -- An executed buy has a notional, which is not zero.
  abbrev pub CostIsKnown : OrderResult D → Type 0
  CostIsKnown r =
      is_buy r.request ≡ true
      → is_accepted r.status ≡ true
      → (a : D) × (estimated_notional r.request ≡ some a) × (truthy a ≡ true)

  -- Each result is of this date and has an id that no row has; the costs are known.
  abbrev pub AllNew : Columns D → List (OrderRow D) → Option ℕ → ℕ → List (Stamped D) → Type 0
  AllNew c rows tick_id d [] = Unit
  AllNew c rows tick_id d (r ∷ rs) =
      (trade_date_kst r.created_at ≡ d)
      × (is_recorded r.result.client_order_id rows ≡ false)
      × CostIsKnown r.result
      × AllNew c (add_order c rows tick_id r) tick_id d rs

module _ {D : Type 0} ⦃n : Numeric D⦄ (c : Columns D) where
  sum_buys-append :
      (rows : List (OrderRow D)) (r : OrderRow D) (d : ℕ) (total : Option D)
      → sum_buys c (rows ++ r ∷ []) d total ≡ sum_buys c (r ∷ []) d (sum_buys c rows d total)
  unfolding sum_buys
  sum_buys-append [] r d total = refl
  sum_buys-append (q ∷ rows) r d none = refl
  sum_buys-append (q ∷ rows) r d (some t) = sum_buys-append rows r d _

  -- What a row of texts adds is the notional of the order.
  notional_reads :
      (b : ReadsBack c.texts) (amount q p : Option D) (a : D)
      → notional_of amount q p ≡ some a
      → (i : ℕ) (tick_id : Option ℕ) (r : Stamped D) → r.result.request.order_amount ≡ amount
      → r.result.request.quantity ≡ q
      → r.result.request.price ≡ p
      → row_notional c (order_row c i tick_id r) ≡ some a
  unfolding row_notional dec_of order_row notional_of priced
  notional_reads b (some v) q p a h i tick_id r ea eq ep =
      rw (ea, b.str_nonempty v, b.decimal-str v) h
  notional_reads b none (some v) (some w) a h i tick_id r ea eq ep =
      rw (ea, eq, ep, b.str_nonempty v, b.decimal-str v, b.str_nonempty w, b.decimal-str w) h
  notional_reads b none (some v) none a h i tick_id r ea eq ep = cc
  notional_reads b none none p a h i tick_id r ea eq ep = cc

  used_accepted : (st : OrderStatus) → is_used st ≡ is_accepted st
  unfolding is_used is_accepted
  used_accepted OrderStatus.dry_run = refl
  used_accepted OrderStatus.rejected = refl
  used_accepted OrderStatus.submitted = refl
  used_accepted OrderStatus.failed = refl
  used_accepted OrderStatus.duplicate = refl

buy_same : {D : Type 0} (s : Side) (o : OrderRequest D) → o.side ≡ s → is_buy_side s ≡ is_buy o
unfolding is_buy
buy_same Side.buy o e = rw e refl
buy_same Side.sell o e = rw e refl

duplicate_unused : (st : OrderStatus) → is_duplicate st ≡ true → is_accepted st ≡ false
unfolding is_accepted
duplicate_unused OrderStatus.duplicate h = refl
duplicate_unused OrderStatus.dry_run h = ground arith
duplicate_unused OrderStatus.submitted h = ground arith
duplicate_unused OrderStatus.rejected h = refl
duplicate_unused OrderStatus.failed h = refl

module _ {D : Type 0} ⦃n : Numeric D⦄ (c : Columns D) (b : ReadsBack c.texts) where
  known_reads :
      (i : ℕ) (tick_id : Option ℕ) (r : Stamped D) (a : D)
      → estimated_notional r.result.request ≡ some a
      → row_notional c (order_row c i tick_id r) ≡ some a
  unfolding estimated_notional
  known_reads i tick_id r a e = notional_reads c b _ _ _ a e i tick_id r refl refl refl

  -- One more row of this date.
  row_counts :
      (i : ℕ) (tick_id : Option ℕ) (r : Stamped D) (d : ℕ) (total : D)
      → trade_date_kst r.created_at ≡ d
      → CostIsKnown r.result
      → sum_buys c (order_row c i tick_id r ∷ []) d (some total) ≡ some (add_bought total r.result)
  unfolding sum_buys order_row
  row_counts i tick_id r d total e k =
      rw (e, buy_same r.result.request.side r.result.request refl, used_accepted c r.result.status)
        (elim (Bool-cases (is_buy r.result.request && is_accepted r.result.status)) [
          | inl h ↦
              let (a, known, t) = k (ground arith) (ground arith) in
              let reads = known_reads i tick_id r a known in
              let counted : plus c total (row_notional c (order_row c i tick_id r))
                  ≡ some (total + a) =
                rw reads refl in
              ground arith
          | inr h ↦ ground arith
        ])

  -- One more result of this date.
  result_counts :
      (rows : List (OrderRow D)) (tick_id : Option ℕ) (r : Stamped D) (d : ℕ) (start total : D)
      → trade_date_kst r.created_at ≡ d
      → is_recorded r.result.client_order_id rows ≡ false
      → CostIsKnown r.result
      → sum_buys c rows d (some start) ≡ some total
      → sum_buys c (add_order c rows tick_id r) d (some start) ≡ some (add_bought total r.result)
  unfolding add_order
  result_counts rows tick_id r d start total e fresh k h =
      elim (Bool-cases (is_duplicate r.result.status)) [
        | inl dup ↦ let unused = duplicate_unused r.result.status dup in rw dup (h ∙ ground arith)
        | inr one ↦ rw one (
            rw fresh (
              sum_buys-append c rows (order_row c (next_id rows) tick_id r) d (some start)
              ∙ rw h (row_counts (next_id rows) tick_id r d total e k)))
      ]

  -- The sum of the buys of a day after new results of that day were recorded is what it was, with
  -- the cost of the buys that they executed added.
  pub add_orders-total_bought :
      (rows : List (OrderRow D)) (tick_id : Option ℕ) (rs : List (Stamped D)) (d : ℕ)
      (start total : D)
      → AllNew c rows tick_id d rs
      → sum_buys c rows d (some start) ≡ some total
      → sum_buys c (add_orders c rows tick_id rs) d (some start)
        ≡ some (total_bought total (results_of rs))
  unfolding add_orders
  add_orders-total_bought rows tick_id [] d start total a h = h
  add_orders-total_bought rows tick_id (r ∷ rs) d start total (e, fresh, k, a) h =
      add_orders-total_bought (add_order c rows tick_id r) tick_id rs d start
        (add_bought total r.result) a (result_counts rows tick_id r d start total e fresh k h)
