-- ===== src/Api/Judging/Capped.antt =====
-- The guard on the cost of the language model, over the recorded ticks of a day.
use Prim.Native.Nat.{◌+◌}
use auto_trade_stock_demo.Prelude.{ℕ, String, true, List, ◌≡◌, ◌↔◌, ◌⊎◌, ◌<◌, arith}
use auto_trade_stock_demo.Clock.{DateTime}
use auto_trade_stock_demo.Core.Settings.{Settings}
use auto_trade_stock_demo.Db.Rows.{Columns, Database}
use auto_trade_stock_demo.Db.Ledger.{count_decisions_today, trade_date_kst, has_text}
use auto_trade_stock_demo.Db.Ledger.Counts.{
  Recording, IsLedger, decided_on, record_ticks, record_ticks-count,
}
use auto_trade_stock_demo.Api.Judging.{engine_of, llm_capped, uses_model}

-- What the count of the database allows.
counted :
    {F D : Type 0} (db : Database F D) (st : Settings F D) (now : DateTime) (k : ℕ)
    → count_decisions_today db (trade_date_kst now) ≡ k
    → (uses_model (engine_of true db st now) ≡ true) ↔ (
        (has_text st.anthropic_api_key ≡ true)
        × ((st.daily_llm_decision_cap ≡ 0) ⊎ (k < st.daily_llm_decision_cap)))
unfolding engine_of llm_capped
counted db st now k e = ground arith

-- With a database whose ticks are numbered and whose decisions are of ticks that there are,
-- after any sequence of recorded ticks the language model is used exactly if there is a key
-- for it and either the limit is zero or the decisions that the database counted for the day,
-- with those of the recorded ticks that started on this day added, are fewer than the limit.
pub engine_of-record_ticks :
    {F D : Type 0} (c : Columns D) (show : F → String) (db : Database F D)
    (rs : List (Recording F D)) (st : Settings F D) (now : DateTime)
    → IsLedger db
    → (uses_model (engine_of true (record_ticks c show db rs) st now) ≡ true) ↔ (
        (has_text st.anthropic_api_key ≡ true)
        × ((st.daily_llm_decision_cap ≡ 0)
            ⊎ (count_decisions_today db (trade_date_kst now) + decided_on (trade_date_kst now) rs
                < st.daily_llm_decision_cap)))
engine_of-record_ticks c show db rs st now h =
    counted (record_ticks c show db rs) st now _
      (record_ticks-count c show rs db (trade_date_kst now) h)
