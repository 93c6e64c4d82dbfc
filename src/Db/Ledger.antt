-- ===== src/Db/Ledger.antt =====
-- The ledger of ticks, decisions and orders (server/app/db/repo.py): record_tick, and the counts
-- and sums that the next tick reads.
pub mod Unique
pub mod Budget
pub mod Days
pub mod Counts
use auto_trade_stock_demo.Prelude.{
  ℕ, suc, String, Bool, true, false, not, ◌&&◌, Option, none, some, List, [], ◌∷◌, ◌++◌, Dict,
  lookup, insert, length, eqb, ltb, ◌==◌, ◌||◌, if◌then◌else◌,
}
use auto_trade_stock_demo.Numeric.{Numeric, ◌+◌, ◌*◌, ◌-◌, dec, neg}
use auto_trade_stock_demo.Clock.{DateTime, astimezone, date, kst}
use auto_trade_stock_demo.Orders.Models.{OrderRequest, OrderResult, OrderStatus, Side, is_submitted}
use auto_trade_stock_demo.Orders.Breaker.Persist.{Texts}
use auto_trade_stock_demo.Engine.Judge.{Decision}
use auto_trade_stock_demo.Engine.Pipeline.{TickResult}
use auto_trade_stock_demo.Engine.Pipeline.Sizing.{is_accepted}
use auto_trade_stock_demo.Db.Rows.{Columns, Database, TickRow, DecisionRow, OrderRow, next_id, utc}

-- `trade_date_kst(dt)`, as the ordinal of the date.
unfoldable pub trade_date_kst : DateTime → ℕ
trade_date_kst t = date (astimezone t kst)

-- A result with the time of its creation.
pub record Stamped (D : Type 0) : Type 0 where
  pub result : OrderResult D
  pub created_at : DateTime

abbrev pub is_duplicate : OrderStatus → Bool
is_duplicate OrderStatus.duplicate = true
is_duplicate _ = false

abbrev pub is_buy_side : Side → Bool
is_buy_side Side.buy = true
is_buy_side Side.sell = false

-- A row with this id of the client exists.
unfoldable pub is_recorded : {D : Type 0} → String → List (OrderRow D) → Bool
is_recorded k [] = false
is_recorded k (r ∷ rs) = r.client_order_id == k || is_recorded k rs

module _ {D : Type 0} (c : Columns D) where
  -- `str(a) if a is not None else None`
  abbrev pub text_of : Option D → Option String
  text_of none = none
  text_of (some a) = some (c.texts.str a)

  unfoldable pub order_row : ℕ → Option ℕ → Stamped D → OrderRow D
  order_row i tick_id r = record {
    id = i;
    tick_id = tick_id;
    client_order_id = r.result.client_order_id;
    symbol = r.result.request.symbol;
    side = r.result.request.side;
    order_type = r.result.request.order_type;
    quantity = text_of r.result.request.quantity;
    price = text_of r.result.request.price;
    order_amount = text_of r.result.request.order_amount;
    time_in_force = r.result.request.time_in_force;
    mode = r.result.mode;
    status = r.result.status;
    reason = r.result.reason;
    toss_order_id = r.result.toss_order_id;
    created_at = c.timestamp r.created_at;
    trade_date = trade_date_kst r.created_at;
  }

  -- `_add_order`: a duplicate, or an id that has a row, adds none.
  unfoldable pub add_order : List (OrderRow D) → Option ℕ → Stamped D → List (OrderRow D)
  unfolding order_row is_recorded
  add_order rows tick_id r =
      if is_duplicate r.result.status
      then rows
      else if is_recorded r.result.client_order_id rows
      then rows
      else rows ++ order_row (next_id rows) tick_id r ∷ []

  unfoldable pub add_orders : List (OrderRow D) → Option ℕ → List (Stamped D) → List (OrderRow D)
  unfolding add_order
  add_orders rows tick_id [] = rows
  add_orders rows tick_id (r ∷ rs) = add_orders (add_order rows tick_id r) tick_id rs

module _ {F D : Type 0} (c : Columns D) (show : F → String) where
  abbrev price_text : Option F → Option String
  price_text none = none
  price_text (some a) = some (show a)

  abbrev pub decision_row : ℕ → ℕ → Decision F D → DecisionRow F D
  decision_row i tick_id d = record {
    id = i;
    tick_id = tick_id;
    symbol = d.symbol;
    action = d.action;
    confidence = d.confidence;
    rationale = d.rationale;
    decision_price = price_text d.decision_price;
  }

  unfoldable pub add_decisions :
      List (DecisionRow F D) → ℕ → List (Decision F D) → List (DecisionRow F D)
  add_decisions rows tick_id [] = rows
  add_decisions rows tick_id (d ∷ ds) =
      add_decisions (rows ++ decision_row (next_id rows) tick_id d ∷ []) tick_id ds

  abbrev pub tick_row : ℕ → TickResult F D → DateTime → TickRow D
  tick_row i r started_at = record {
    id = i;
    started_at = c.timestamp started_at;
    trade_date = trade_date_kst started_at;
    mode = r.mode;
    kill_switch = r.kill_switch;
    circuit_breaker = r.circuit_breaker;
    circuit_breaker_reason = r.circuit_breaker_reason;
    universe_count = length r.universe_symbols;
    candidates = r.candidates;
    note = r.note;
    cost_gated = r.cost_gated;
    regime = r.regime;
  }

  -- `record_tick(result, started_at)`, with the orders of the result and their times.
  unfoldable pub record_tick :
      Database F D → TickResult F D → List (Stamped D) → DateTime → Database F D × ℕ
  unfolding add_decisions add_orders
  record_tick db r orders started_at =
      let i = next_id db.ticks in
      (
        record db {
          ticks = db.ticks ++ tick_row i r started_at ∷ [];
          decisions = add_decisions db.decisions i r.decisions;
          orders = add_orders c db.orders (some i) orders;
        },
        i,
      )

unfoldable pub count_ticks : {F D : Type 0} → Database F D → ℕ
count_ticks db = length db.ticks

-- The tick of this id is of this date.
unfoldable pub ticked_on : {D : Type 0} → ℕ → ℕ → List (TickRow D) → Bool
ticked_on i d [] = false
ticked_on i d (t ∷ ts) = (eqb t.id i && eqb t.trade_date d) || ticked_on i d ts

module _ {F D : Type 0} where
  unfoldable pub count_decided : List (TickRow D) → ℕ → List (DecisionRow F D) → ℕ
  unfolding ticked_on
  count_decided ts d [] = 0
  count_decided ts d (r ∷ rs) =
      let rest = count_decided ts d rs in if ticked_on r.tick_id d ts then suc rest else rest

  unfoldable pub count_decisions_today : Database F D → ℕ → ℕ
  unfolding count_decided
  count_decisions_today db d = count_decided db.ticks d db.decisions

-- `_USED_STATUSES`
unfoldable pub is_used : OrderStatus → Bool
is_used OrderStatus.dry_run = true
is_used OrderStatus.submitted = true
is_used _ = false

-- `bool(text)`
abbrev pub has_text : Option String → Bool
has_text none = false
has_text (some t) = not (t == "")

module _ {D : Type 0} ⦃n : Numeric D⦄ (c : Columns D) where
  -- `_dec(text)`; `none` where `Decimal` raises.
  unfoldable pub dec_of : Option String → Option D
  dec_of none = some (dec 0)
  dec_of (some t) = if t == "" then some (dec 0) else c.texts.decimal t

  abbrev product_of : Option D → Option D → Option D
  product_of none b = none
  product_of (some a) none = none
  product_of (some a) (some b) = some (a * b)

  -- What one row adds to the sum of the day.
  unfoldable pub row_notional : OrderRow D → Option D
  unfolding dec_of
  row_notional r =
      if has_text r.order_amount
      then dec_of r.order_amount
      else product_of (dec_of r.quantity) (dec_of r.price)

  abbrev pub plus : D → Option D → Option D
  plus total none = none
  plus total (some a) = some (total + a)

  abbrev counts_on : ℕ → OrderRow D → Bool
  counts_on d r = eqb r.trade_date d && (is_buy_side r.side && is_used r.status)

  -- The loop over the rows of this date; the sum so far is `none` once a text was not a number.
  unfoldable pub sum_buys : List (OrderRow D) → ℕ → Option D → Option D
  unfolding row_notional is_used
  sum_buys [] d total = total
  sum_buys (r ∷ rs) d none = none
  sum_buys (r ∷ rs) d (some total) =
      sum_buys rs d (if counts_on d r then plus total (row_notional r) else some total)

  unfoldable pub buy_notional_today : {F : Type 0} → Database F D → ℕ → Option D
  unfolding sum_buys
  buy_notional_today db d = sum_buys db.orders d (some (dec 0))

  abbrev pub get_or_zero : Option D → D
  get_or_zero none = dec 0
  get_or_zero (some a) = a

  abbrev signed : Side → D
  signed Side.buy = dec 1
  signed Side.sell = neg (dec 1)

  abbrev move : OrderRow D → Dict D → Option D → Option (Dict D)
  move r delta none = none
  move r delta (some qty) =
      some (insert r.symbol (get_or_zero (lookup r.symbol delta) + signed r.side * qty) delta)

  abbrev moves_after : ℕ → OrderRow D → Bool
  moves_after since r = is_submitted r.status && (ltb since r.created_at && has_text r.quantity)

  unfoldable pub sum_moves : List (OrderRow D) → ℕ → Option (Dict D) → Option (Dict D)
  unfolding dec_of is_submitted
  sum_moves [] since delta = delta
  sum_moves (r ∷ rs) since none = none
  sum_moves (r ∷ rs) since (some delta) =
      sum_moves rs since
        (if moves_after since r then move r delta (dec_of r.quantity) else some delta)

  unfoldable pub submitted_qty_since : {F : Type 0} → Database F D → DateTime → Option (Dict D)
  unfolding sum_moves
  submitted_qty_since db ts = sum_moves db.orders (c.timestamp (astimezone ts 0)) (some [])
