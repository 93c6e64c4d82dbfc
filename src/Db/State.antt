-- ===== src/Db/State.antt =====
-- The engine state and the audit log (server/app/db/repo.py).
use auto_trade_stock_demo.Prelude.{ℕ, String, Bool, Option, none, some, [], ◌∷◌, ◌++◌, ◌≡◌, refl}
use auto_trade_stock_demo.Orders.Breaker.Persist.{StoredState}
use auto_trade_stock_demo.Db.Rows.{Columns, Database, EngineStateRow, Event, next_id, utc}

abbrev state_of : Option EngineStateRow → Option (Bool × StoredState)
state_of none = none
state_of (some row) = some (row.kill_switch, row.breaker)

module _ {F D : Type 0} where
  unfoldable pub load_engine_state : Database F D → Option (Bool × StoredState)
  load_engine_state db = state_of db.engine_state

  -- The one row is made or overwritten.
  unfoldable pub save_engine_state :
      Columns D → Database F D → Bool → StoredState → ℕ → Database F D
  save_engine_state c db kill_switch breaker now = record db {
    engine_state = some (record {
      kill_switch = kill_switch;
      breaker = breaker;
      updated_at = c.timestamp (utc now);
    });
  }

  unfoldable pub audit : Columns D → Database F D → String → String → Event D → ℕ → Database F D
  audit c db actor action payload now = record db {
    audit_log =
        db.audit_log
        ++ record {
          id = next_id db.audit_log;
          ts = c.timestamp (utc now);
          actor = actor;
          action = action;
          payload = payload;
        }
          ∷ [];
  }

  pub load_engine_state-save_engine_state :
      (c : Columns D) (db : Database F D) (kill_switch : Bool) (breaker : StoredState) (now : ℕ)
      → load_engine_state (save_engine_state c db kill_switch breaker now)
        ≡ some (kill_switch, breaker)
  unfolding load_engine_state save_engine_state
  load_engine_state-save_engine_state c db kill_switch breaker now = refl
