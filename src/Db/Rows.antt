-- ===== src/Db/Rows.antt =====
-- The rows of the tables (server/app/db/models.py). A table is the list of its rows in the order
-- of their ids, and an autoincrement id is one more than the number of rows, since no row of those
-- tables is deleted. A decimal column holds a text, a JSON column the value that it encodes, a
-- column of a KST date its ordinal, and a column of an enumeration the constructor.
use Prim.Native.Nat.{◌+◌ as nat_add}
use auto_trade_stock_demo.Prelude.{ℕ, String, Bool, Option, none, List, [], ◌≡◌, Message, length}
use auto_trade_stock_demo.Clock.{DateTime}
use auto_trade_stock_demo.Orders.Models.{Side, OrderType, TimeInForce, TradingMode, OrderStatus}
use auto_trade_stock_demo.Orders.Reconcile.{ReconcileReport}
use auto_trade_stock_demo.Orders.Breaker.{CircuitBreaker}
use auto_trade_stock_demo.Orders.Breaker.Persist.{Texts, ReadsBack, StoredState}
use auto_trade_stock_demo.Engine.Judge.{Action}
use auto_trade_stock_demo.Engine.Regime.{RegimeAssessment}

-- What the columns do to a value: the texts of decimals, and what a column of a time keeps of an
-- aware datetime, which depends on the database.
pub record Columns (D : Type 0) : Type 0 where
  pub texts : Texts D
  pub timestamp : DateTime → ℕ

-- A time in UTC is kept.
pub record KeepsValues {D : Type 0} (c : Columns D) : Type 0 where
  pub reads_back : ReadsBack c.texts
  pub timestamp_utc : (i : ℕ) → c.timestamp (record { instant = i; offset = 0 }) ≡ i

pub record TickRow (D : Type 0) : Type 0 where
  pub id : ℕ
  pub started_at : ℕ
  pub trade_date : ℕ
  pub mode : TradingMode
  pub kill_switch : Bool
  pub circuit_breaker : Bool
  pub circuit_breaker_reason : Message D
  pub universe_count : ℕ
  pub candidates : ℕ
  pub note : String
  pub cost_gated : List String
  pub regime : Option (RegimeAssessment D)

pub record DecisionRow (F D : Type 0) : Type 0 where
  pub id : ℕ
  pub tick_id : ℕ
  pub symbol : String
  pub action : Action
  pub confidence : F
  pub rationale : Message D
  pub decision_price : Option String

pub record OrderRow (D : Type 0) : Type 0 where
  pub id : ℕ
  pub tick_id : Option ℕ
  pub client_order_id : String
  pub symbol : String
  pub side : Side
  pub order_type : OrderType
  pub quantity : Option String
  pub price : Option String
  pub order_amount : Option String
  pub time_in_force : TimeInForce
  pub mode : TradingMode
  pub status : OrderStatus
  pub reason : Option (Message D)
  pub toss_order_id : Option String
  pub created_at : ℕ
  pub trade_date : ℕ

-- What the payload of an audited event says.
pub data Event (D : Type 0) : Type 0 where
  mismatch : ReconcileReport D → Event D
  engaged : Bool → Option String → Event D
  seeded : String → Event D
  was_reset : CircuitBreaker D → Event D

pub record AuditRow (D : Type 0) : Type 0 where
  pub id : ℕ
  pub ts : ℕ
  pub actor : String
  pub action : String
  pub payload : Event D

pub record PositionSnapshotRow : Type 0 where
  pub id : ℕ
  pub ts : ℕ
  pub item_count : ℕ

pub record PositionRow : Type 0 where
  pub id : ℕ
  pub snapshot_id : ℕ
  pub symbol : String
  pub quantity : String
  pub avg_price : Option String
  pub currency : Option String

-- The one row of the paper state, of id 1.
pub record PaperStateRow : Type 0 where
  pub cash : String
  pub realized_cum : String
  pub trade_count : ℕ
  pub seed : String
  pub updated_at : ℕ

-- The id of a paper position is never read.
pub record PaperPositionRow : Type 0 where
  pub symbol : String
  pub quantity : String
  pub avg_cost : String
  pub opened_at : Option ℕ

pub record PaperEquityRow : Type 0 where
  pub id : ℕ
  pub ts : ℕ
  pub trade_date : ℕ
  pub equity : String
  pub cash : String
  pub positions_value : String
  pub realized_cum : String
  pub benchmark_price : Option String

pub record SymbolStatsRow (F : Type 0) : Type 0 where
  pub id : ℕ
  pub symbol : String
  pub adv20_krw : F
  pub updated_trade_date : ℕ

pub record ReportLogRow : Type 0 where
  pub id : ℕ
  pub generated_at : ℕ
  pub period_end : ℕ
  pub path : String
  pub body : Option String

-- The one row of the engine state, of id 1.
pub record EngineStateRow : Type 0 where
  pub kill_switch : Bool
  pub breaker : StoredState
  pub updated_at : ℕ

pub record Database (F D : Type 0) : Type 0 where
  pub ticks : List (TickRow D)
  pub decisions : List (DecisionRow F D)
  pub orders : List (OrderRow D)
  pub audit_log : List (AuditRow D)
  pub position_snapshots : List PositionSnapshotRow
  pub positions : List PositionRow
  pub paper_state : Option PaperStateRow
  pub paper_positions : List PaperPositionRow
  pub paper_equity : List PaperEquityRow
  pub symbol_stats : List (SymbolStatsRow F)
  pub report_log : List ReportLogRow
  pub engine_state : Option EngineStateRow

-- A database with no rows.
abbrev pub blank : {F D : Type 0} → Database F D
blank = record {
  ticks = [];
  decisions = [];
  orders = [];
  audit_log = [];
  position_snapshots = [];
  positions = [];
  paper_state = none;
  paper_positions = [];
  paper_equity = [];
  symbol_stats = [];
  report_log = [];
  engine_state = none;
}

-- The id of the next row of a table.
abbrev pub next_id {ℓ} : {A : Type ℓ} → List A → ℕ
next_id rows = nat_add (length rows) 1

-- `_utc`: what is read back is taken as UTC.
abbrev pub utc : ℕ → DateTime
utc i = record { instant = i; offset = 0 }
