-- ===== src/Orders/Reconcile.antt =====
-- Reconciliation (server/app/orders/reconcile.py): the quantities that the system expects against
-- those that the broker reports.
pub mod Verdict
use auto_trade_stock_demo.Prelude.{
  String, Bool, true, false, not, ◌&&◌, Option, none, some, List, [], ◌∷◌, ◌++◌, Dict, lookup, keys,
  sorted_set, is_some, map, Message, Part, if◌then◌else◌,
}
use auto_trade_stock_demo.Numeric.{Numeric, ◌+◌, ◌=?◌, dec}
use auto_trade_stock_demo.Toss.{HoldingItem, Holdings}

-- One symbol of a snapshot of the positions.
pub record PositionSnapshot (D : Type 0) : Type 0 where
  pub symbol : String
  pub quantity : D
  pub avg_price : Option D
  pub currency : Option String

abbrev snapshot_of : {D : Type 0} → HoldingItem D → PositionSnapshot D
snapshot_of i = record {
  symbol = i.symbol;
  quantity = i.quantity;
  avg_price = some i.average_purchase_price;
  currency = some i.currency;
}

unfoldable pub snapshot_from_holdings : {D : Type 0} → Holdings D → List (PositionSnapshot D)
snapshot_from_holdings h = map snapshot_of h.items

pub data DiscrepancyKind : Type 0 where
  new_symbol missing_symbol quantity_mismatch : DiscrepancyKind

pub record Discrepancy (D : Type 0) : Type 0 where
  pub kind : DiscrepancyKind
  pub symbol : String
  pub expected : D
  pub actual : D
  pub detail : Message D

pub record ReconcileReport (D : Type 0) : Type 0 where
  pub baseline : Bool
  pub discrepancies : List (Discrepancy D)

unfoldable pub is_ok : {D : Type 0} → ReconcileReport D → Bool
is_ok r = elim (r.discrepancies) [ [] ↦ true | d ∷ ds ↦ false ]

pub data ReportStatus : Type 0 where
  baseline_status ok_status mismatch_status : ReportStatus

unfoldable pub status : {D : Type 0} → ReconcileReport D → ReportStatus
unfolding is_ok
status r = if r.baseline then baseline_status else if is_ok r then ok_status else mismatch_status

module _ {D : Type 0} ⦃n : Numeric D⦄ where
  -- `d.get(symbol, Decimal(0))`
  abbrev pub get_or_zero : Option D → D
  get_or_zero none = dec 0
  get_or_zero (some a) = a

  abbrev pub expected_of : Dict D → Dict D → String → D
  expected_of previous delta symbol =
      get_or_zero (lookup symbol previous) + get_or_zero (lookup symbol delta)

  abbrev delta_note : Option D → Message D
  delta_note none = []
  delta_note (some a) = Part.lit " · 전송 순증감 " ∷ Part.num a ∷ []

  -- The kind and the detail, from the expected quantity and the three entries.
  unfoldable pub classify : D → Option D → Option D → Option D → DiscrepancyKind × Message D
  classify expected prev cur delta =
      if not (is_some prev) && not (is_some delta)
      then (new_symbol, Part.lit "시스템 미인지 신규 보유(외부 매수/입고?)" ∷ [])
      else if not (is_some cur) && not (expected =? dec 0)
      then (missing_symbol, Part.lit "시스템 미인지 보유 소멸(외부 매도/출고?)" ∷ [])
      else (
        quantity_mismatch,
        (Part.lit "수량 불일치(전송분 반영 기대 " ∷ Part.num expected ∷ Part.lit ")" ∷ []) ++ delta_note delta,
      )

  -- One round of the loop: no entry where the quantities agree.
  unfoldable pub check_symbol :
      Dict D → Dict D → Dict D → String → List (Discrepancy D) → List (Discrepancy D)
  unfolding classify
  check_symbol previous current delta symbol rest =
      let expected = expected_of previous delta symbol in
      let actual = get_or_zero (lookup symbol current) in
      let (kind, detail) =
        classify expected (lookup symbol previous) (lookup symbol current) (lookup symbol delta) in
      if actual =? expected
      then rest
      else record {
        kind = kind;
        symbol = symbol;
        expected = expected;
        actual = actual;
        detail = detail;
      }
        ∷ rest

  unfoldable pub check_all : Dict D → Dict D → Dict D → List String → List (Discrepancy D)
  unfolding check_symbol
  check_all previous current delta [] = []
  check_all previous current delta (s ∷ ss) =
      check_symbol previous current delta s (check_all previous current delta ss)

  -- `submitted_delta or {}`
  abbrev or_empty : Option (Dict D) → Dict D
  or_empty none = []
  or_empty (some d) = d

  unfoldable pub all_symbols : Dict D → Dict D → Dict D → List String
  all_symbols previous current delta = sorted_set (keys previous ++ (keys current ++ keys delta))

  unfoldable pub reconcile : Option (Dict D) → Dict D → Option (Dict D) → ReconcileReport D
  unfolding check_all all_symbols
  reconcile none current delta = record { baseline = true; discrepancies = [] }
  reconcile (some previous) current delta = record {
    baseline = false;
    discrepancies =
        check_all previous current (or_empty delta) (all_symbols previous current (or_empty delta));
  }
