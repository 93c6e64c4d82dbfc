-- ===== src/Db/Ledger/Counts.antt =====
-- The count of the decisions of a day, over any sequence of recorded ticks.
use Prim.Native.Nat.{◌+◌}
use auto_trade_stock_demo.Prelude.{
  ℕ, suc, String, false, ◌&&◌, ◌||◌, ◌≤◌, ◌<◌, List, [], ◌∷◌, ◌++◌, ◌≡◌, refl, length, arith, eqb,
  length-append, if◌then◌else◌,
}
use auto_trade_stock_demo.Clock.{DateTime}
use auto_trade_stock_demo.Engine.Judge.{Decision}
use auto_trade_stock_demo.Engine.Pipeline.{TickResult}
use auto_trade_stock_demo.Db.Rows.{Columns, Database, TickRow, DecisionRow, next_id}
use auto_trade_stock_demo.Db.Ledger.{
  Stamped, trade_date_kst, record_tick, ticked_on, count_decided, count_decisions_today,
  add_decisions, tick_row, decision_row,
}

-- A tick that is recorded.
pub record Recording (F D : Type 0) : Type 0 where
  pub result : TickResult F D
  pub orders : List (Stamped D)
  pub started_at : DateTime

-- No id of a tick is above `n`.
abbrev pub Numbered : {D : Type 0} → ℕ → List (TickRow D) → Type 0
Numbered n [] = Unit
Numbered n (t ∷ ts) = (t.id ≤ n) × Numbered n ts

-- No decision is of a tick above `n`.
abbrev pub Attached : {F D : Type 0} → ℕ → List (DecisionRow F D) → Type 0
Attached n [] = Unit
Attached n (r ∷ rs) = (r.tick_id ≤ n) × Attached n rs

-- The ids of the ticks count them, and every decision is of one of these ids.
abbrev pub IsLedger : {F D : Type 0} → Database F D → Type 0
IsLedger db = Numbered (length db.ticks) db.ticks × Attached (length db.ticks) db.decisions

-- The decisions of the recorded ticks that started on this day.
abbrev pub decided_on : {F D : Type 0} → ℕ → List (Recording F D) → ℕ
decided_on d [] = 0
decided_on d (r ∷ rs) =
    (if eqb (trade_date_kst r.started_at) d then length r.result.decisions else 0) + decided_on d rs

Numbered-mono :
    {D : Type 0} (n m : ℕ) (ts : List (TickRow D)) → n ≤ m → Numbered n ts → Numbered m ts
Numbered-mono n m [] l h = tt
Numbered-mono n m (t ∷ ts) l (p, h) = (omega arith, Numbered-mono n m ts l h)

Numbered-append :
    {D : Type 0} (n : ℕ) (ts : List (TickRow D)) (t : TickRow D)
    → Numbered n ts
    → t.id ≤ n
    → Numbered n (ts ++ t ∷ [])
Numbered-append n [] t h p = (p, tt)
Numbered-append n (u ∷ ts) t (q, h) p = (q, Numbered-append n ts t h p)

ticked_on-append :
    {D : Type 0} (i d : ℕ) (ts : List (TickRow D)) (t : TickRow D)
    → ticked_on i d (ts ++ t ∷ []) ≡ (ticked_on i d ts || (eqb t.id i && eqb t.trade_date d))
unfolding ticked_on
ticked_on-append i d [] t = ground arith
ticked_on-append i d (u ∷ ts) t = ground (arith, ticked_on-append i d ts t)

-- An id above all of them is the id of no tick.
ticked_on_new :
    {D : Type 0} (n i d : ℕ) (ts : List (TickRow D))
    → Numbered n ts
    → n < i
    → ticked_on i d ts ≡ false
unfolding ticked_on
ticked_on_new n i d [] h l = refl
ticked_on_new n i d (t ∷ ts) (p, h) l = ground (arith, ticked_on_new n i d ts h l)

module _ {F D : Type 0} where
  Attached-mono : (n m : ℕ) (rs : List (DecisionRow F D)) → n ≤ m → Attached n rs → Attached m rs
  Attached-mono n m [] l h = tt
  Attached-mono n m (r ∷ rs) l (p, h) = (omega arith, Attached-mono n m rs l h)

  Attached-append :
      (n : ℕ) (rs : List (DecisionRow F D)) (r : DecisionRow F D)
      → Attached n rs
      → r.tick_id ≤ n
      → Attached n (rs ++ r ∷ [])
  Attached-append n [] r h p = (p, tt)
  Attached-append n (q ∷ rs) r (k, h) p = (k, Attached-append n rs r h p)

  -- A new tick takes none of the old decisions.
  count_decided_new :
      (n d : ℕ) (ts : List (TickRow D)) (t : TickRow D) (rs : List (DecisionRow F D))
      → Attached n rs
      → n < t.id
      → count_decided (ts ++ t ∷ []) d rs ≡ count_decided ts d rs
  unfolding count_decided
  count_decided_new n d ts t [] h l = refl
  count_decided_new n d ts t (r ∷ rs) (p, h) l =
      ground (arith, ticked_on-append r.tick_id d ts t, count_decided_new n d ts t rs h l)

  count_decided-append :
      (d : ℕ) (ts : List (TickRow D)) (rs : List (DecisionRow F D)) (r : DecisionRow F D)
      → count_decided ts d (rs ++ r ∷ [])
        ≡ count_decided ts d rs + (if ticked_on r.tick_id d ts then 1 else 0)
  unfolding count_decided
  count_decided-append d ts [] r = ground arith
  count_decided-append d ts (q ∷ rs) r = ground (arith, count_decided-append d ts rs r)

  module _ (c : Columns D) (show : F → String) where
    add_decisions-Attached :
        (n i : ℕ) (ds : List (Decision F D)) (rs : List (DecisionRow F D))
        → Attached n rs
        → i ≤ n
        → Attached n (add_decisions c show rs i ds)
    unfolding add_decisions
    add_decisions-Attached n i [] rs h l = h
    add_decisions-Attached n i (x ∷ ds) rs h l =
        add_decisions-Attached n i ds _ (Attached-append n rs _ h l) l

    count_decided-add_decisions :
        (d i : ℕ) (ts : List (TickRow D)) (ds : List (Decision F D)) (rs : List (DecisionRow F D))
        → count_decided ts d (add_decisions c show rs i ds)
          ≡ count_decided ts d rs + (if ticked_on i d ts then length ds else 0)
    unfolding add_decisions
    count_decided-add_decisions d i ts [] rs = ground arith
    count_decided-add_decisions d i ts (x ∷ ds) rs =
        let row = decision_row c show (next_id rs) i x in
        let first = count_decided-append d ts rs row in
        let rest = count_decided-add_decisions d i ts ds (rs ++ row ∷ []) in
        ground (arith, first, rest)

    record_tick-IsLedger :
        (db : Database F D) (r : Recording F D)
        → IsLedger db
        → IsLedger (record_tick c show db r.result r.orders r.started_at).0
    unfolding record_tick
    record_tick-IsLedger db r (p, q) =
        let t = tick_row c show (next_id db.ticks) r.result r.started_at in
        let more : length (db.ticks ++ t ∷ []) ≡ suc (length db.ticks) =
          omega (arith, length-append db.ticks (t ∷ [])) in
        (
          Numbered-append _ db.ticks t (Numbered-mono _ _ db.ticks (omega (arith, more)) p)
              (omega (arith, more)),
          add_decisions-Attached _ (next_id db.ticks) r.result.decisions db.decisions
              (Attached-mono _ _ db.decisions (omega (arith, more)) q) (omega (arith, more)),
        )

    -- The count of a day grows by the decisions of a tick of this day.
    record_tick-count :
        (db : Database F D) (r : Recording F D) (d : ℕ)
        → IsLedger db
        → count_decisions_today (record_tick c show db r.result r.orders r.started_at).0 d
          ≡ count_decisions_today db d
            + (if eqb (trade_date_kst r.started_at) d then length r.result.decisions else 0)
    unfolding record_tick count_decisions_today
    record_tick-count db r d (p, q) =
        let i = next_id db.ticks in
        let t = tick_row c show i r.result r.started_at in
        let new = ticked_on_new (length db.ticks) i d db.ticks p (omega arith) in
        let here = ticked_on-append i d db.ticks t in
        let old = count_decided_new (length db.ticks) d db.ticks t db.decisions q (omega arith) in
        let added =
          count_decided-add_decisions d i (db.ticks ++ t ∷ []) r.result.decisions db.decisions in
        ground (arith, new, here, old, added)

    -- The database after these ticks.
    unfoldable pub record_ticks : Database F D → List (Recording F D) → Database F D
    unfolding record_tick
    record_ticks db [] = db
    record_ticks db (r ∷ rs) =
        record_ticks (record_tick c show db r.result r.orders r.started_at).0 rs

    pub record_ticks-count :
        (rs : List (Recording F D)) (db : Database F D) (d : ℕ)
        → IsLedger db
        → count_decisions_today (record_ticks db rs) d
          ≡ count_decisions_today db d + decided_on d rs
    unfolding record_ticks
    record_ticks-count [] db d h = omega arith
    record_ticks-count (r ∷ rs) db d h =
        let first = record_tick-count db r d h in
        let rest =
          record_ticks-count rs (record_tick c show db r.result r.orders r.started_at).0 d
            (record_tick-IsLedger db r h) in
        omega (arith, first, rest)
