-- ===== src/Db/PaperBook.antt =====
-- The paper book and its equity curve in the database (server/app/db/repo.py).
pub mod Saved
use auto_trade_stock_demo.Prelude.{
  ℕ, String, Bool, true, false, not, Option, none, some, List, [], ◌∷◌, ◌++◌, Dict, insert, lookup,
  keys, sorted_set, contains, length, ltb, eqb, suc, if◌then◌else◌, ◌||◌, leb,
}
use auto_trade_stock_demo.Clock.{DateTime, astimezone}
use auto_trade_stock_demo.Engine.Paper.{PaperPosition, PaperPortfolio}
use auto_trade_stock_demo.Db.Rows.{
  Columns, Database, PaperStateRow, PaperPositionRow, PaperEquityRow, next_id, utc,
}
use auto_trade_stock_demo.Db.Ledger.{trade_date_kst, text_of, has_text}

abbrev pub utc_opt : Option ℕ → Option DateTime
utc_opt none = none
utc_opt (some t) = some (utc t)

module _ {D : Type 0} (c : Columns D) where
  abbrev pub opened_text : Option DateTime → Option ℕ
  opened_text none = none
  opened_text (some t) = some (c.timestamp (astimezone t 0))

  abbrev pub position_row : String → PaperPosition D → PaperPositionRow
  position_row symbol pos = record {
    symbol = symbol;
    quantity = c.texts.str pos.quantity;
    avg_cost = c.texts.str pos.avg_cost;
    opened_at = opened_text pos.opened_at;
  }

  unfoldable pub position_rows : Dict (PaperPosition D) → List PaperPositionRow
  position_rows [] = []
  position_rows ((symbol, pos) ∷ rest) = position_row symbol pos ∷ position_rows rest

  abbrev seed_of : Option D → PaperPortfolio D → D
  seed_of none p = p.cash
  seed_of (some seed) p = seed

  abbrev state_row : PaperPortfolio D → String → ℕ → PaperStateRow
  state_row p seed now = record {
    cash = c.texts.str p.cash;
    realized_cum = c.texts.str p.realized_cum;
    trade_count = p.trade_count;
    seed = seed;
    updated_at = c.timestamp (utc now);
  }

  -- The state row is made with the seed, or overwritten without it.
  abbrev pub saved_state : Option PaperStateRow → PaperPortfolio D → Option D → ℕ → PaperStateRow
  saved_state none p seed now = state_row p (c.texts.str (seed_of seed p)) now
  saved_state (some old) p seed now = state_row p old.seed now

  unfoldable pub save_paper :
      {F : Type 0} → Database F D → PaperPortfolio D → Option D → ℕ → Database F D
  unfolding position_rows
  save_paper db p seed now = record db {
    paper_state = some (saved_state db.paper_state p seed now);
    paper_positions = position_rows p.positions;
  }

  abbrev pub paper_position : Option D → Option D → Option ℕ → Option (PaperPosition D)
  paper_position none avg opened = none
  paper_position (some q) none opened = none
  paper_position (some q) (some a) opened =
      some (record { quantity = q; avg_cost = a; opened_at = utc_opt opened })

  abbrev pub put_position :
      String
      → Option (PaperPosition D)
      → Option (Dict (PaperPosition D))
      → Option (Dict (PaperPosition D))
  put_position s none d = none
  put_position s (some pos) none = none
  put_position s (some pos) (some d) = some (insert s pos d)

  -- The dict of the positions, in the order of the rows; `none` where `Decimal` raises.
  unfoldable pub positions_of :
      List PaperPositionRow → Option (Dict (PaperPosition D)) → Option (Dict (PaperPosition D))
  positions_of [] d = d
  positions_of (r ∷ rs) d = positions_of rs (
      put_position r.symbol
        (paper_position (c.texts.decimal r.quantity) (c.texts.decimal r.avg_cost) r.opened_at) d)

  abbrev pub portfolio_of :
      Option D → Option (Dict (PaperPosition D)) → Option D → ℕ → Option (Option (PaperPortfolio D))
  portfolio_of none ps realized n = none
  portfolio_of (some cash) none realized n = none
  portfolio_of (some cash) (some ps) none n = none
  portfolio_of (some cash) (some ps) (some r) n =
      some (some (record { cash = cash; positions = ps; realized_cum = r; trade_count = n }))

  abbrev pub load_state :
      List PaperPositionRow → Option PaperStateRow → Option (Option (PaperPortfolio D))
  load_state rows none = some none
  load_state rows (some st) =
      portfolio_of (c.texts.decimal st.cash) (positions_of rows (some []))
        (c.texts.decimal st.realized_cum) st.trade_count

  -- The paper book, or that there is none; `none` outside stands for an exception.
  unfoldable pub load_paper : {F : Type 0} → Database F D → Option (Option (PaperPortfolio D))
  unfolding positions_of
  load_paper db = load_state db.paper_positions db.paper_state

  unfoldable pub append_paper_equity :
      {F : Type 0} → Database F D → DateTime → D → D → D → D → Option D → Database F D
  append_paper_equity db ts equity cash positions_value realized_cum benchmark_price = record db {
    paper_equity =
        db.paper_equity
        ++ record {
          id = next_id db.paper_equity;
          ts = c.timestamp (astimezone ts 0);
          trade_date = trade_date_kst ts;
          equity = c.texts.str equity;
          cash = c.texts.str cash;
          positions_value = c.texts.str positions_value;
          realized_cum = c.texts.str realized_cum;
          benchmark_price = text_of c benchmark_price;
        }
          ∷ [];
  }

abbrev member : List ℕ → ℕ → Bool
member [] d = false
member (e ∷ es) d = eqb e d || member es d

-- The dates after `d` in the curve, each once.
unfoldable pub days_after : List PaperEquityRow → ℕ → List ℕ → List ℕ
days_after [] d seen = seen
days_after (r ∷ rs) d seen =
    let grown = days_after rs d (seen ++ r.trade_date ∷ []) in
    let same = days_after rs d seen in
    if ltb d r.trade_date then (if member seen r.trade_date then same else grown) else same

unfoldable pub count_trading_days_since : {F D : Type 0} → Database F D → ℕ → ℕ
unfolding days_after
count_trading_days_since db d = length (days_after db.paper_equity d [])
