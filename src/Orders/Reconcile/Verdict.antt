-- ===== src/Orders/Reconcile/Verdict.antt =====
-- When a reconciliation is clean, and what each discrepancy says.
use auto_trade_stock_demo.Prelude.{
  String, Bool, true, false, ◌||◌, Option, none, some, List, [], ◌∷◌, ◌++◌, ◌≡◌, ◌↔◌, ◌⊎◌, inl, inr,
  refl, arith, Dict, lookup, keys, contains, contains-sorted_set, contains-keys, contains-append,
  is_some, ◌==◌, eq_iff, Bool-cases, if◌then◌else◌,
}
use auto_trade_stock_demo.Numeric.{Numeric, ◌=?◌, dec}
use auto_trade_stock_demo.Orders.Reconcile.{
  Discrepancy, DiscrepancyKind, new_symbol, missing_symbol, quantity_mismatch, reconcile, check_all,
  check_symbol, all_symbols, expected_of, get_or_zero, is_ok, classify,
}

module _ {D : Type 0} ⦃n : Numeric D⦄ where
  -- A symbol that one of the three books names.
  abbrev pub Known : Dict D → Dict D → Dict D → String → Type 0
  Known previous current delta a =
      (is_some (lookup a previous) ≡ true)
      ⊎ (is_some (lookup a current) ≡ true)
      ⊎ (is_some (lookup a delta) ≡ true)

  -- The broker holds what the system expects.
  abbrev pub Agrees : Dict D → Dict D → Dict D → String → Type 0
  Agrees previous current delta a =
      (get_or_zero (lookup a current) =? expected_of previous delta a) ≡ true

  Known-contains :
      (p c d : Dict D) (a : String) → Known p c d a → contains (all_symbols p c d) a ≡ true
  unfolding all_symbols
  Known-contains p c d a k = ground (
    arith,
    contains-sorted_set (keys p ++ (keys c ++ keys d)) a,
    contains-append (keys p) (keys c ++ keys d) a,
    contains-append (keys c) (keys d) a,
    contains-keys p a,
    contains-keys c a,
    contains-keys d a,
  )

  contains-Known :
      (p c d : Dict D) (a : String) → contains (all_symbols p c d) a ≡ true → Known p c d a
  unfolding all_symbols
  contains-Known p c d a k = ground (
    arith,
    contains-sorted_set (keys p ++ (keys c ++ keys d)) a,
    contains-append (keys p) (keys c ++ keys d) a,
    contains-append (keys c) (keys d) a,
    contains-keys p a,
    contains-keys c a,
    contains-keys d a,
  )

  check_nil :
      (p c d : Dict D) (a : String) (rest : List (Discrepancy D))
      → check_symbol p c d a rest ≡ []
      → Agrees p c d a × (rest ≡ [])
  unfolding check_symbol
  check_nil p c d a rest h = ground arith

  nil-Agrees :
      (p c d : Dict D) (ss : List String)
      → check_all p c d ss ≡ []
      → (a : String) → contains ss a ≡ true
      → Agrees p c d a
  unfolding check_all contains
  nil-Agrees p c d [] h a m = cc
  nil-Agrees p c d (s ∷ ss) h a m =
      let (here, there) = check_nil p c d s (check_all p c d ss) h in
      elim (Bool-cases (s == a)) [
        | inl e ↦ rw (← (eq_iff s a).0 e) here
        | inr e ↦ nil-Agrees p c d ss there a (rw e at m)
      ]

  Agrees-nil :
      (p c d : Dict D) (ss : List String)
      → ((a : String) → contains ss a ≡ true → Agrees p c d a)
      → check_all p c d ss ≡ []
  unfolding check_all contains
  Agrees-nil p c d [] h = refl
  Agrees-nil p c d (s ∷ ss) h = ground (
    arith,
    h s,
    eq_iff s s,
    Agrees-nil p c d ss (λ (a : String) (m : contains ss a ≡ true). h a (or_right (s == a) m)),
  )
    where
      or_right : (x : Bool) {y : Bool} → y ≡ true → (x || y) ≡ true
      or_right x e = ground arith

  -- Against a baseline the report is clean exactly if the broker holds, for every symbol that
  -- the snapshot, the holdings or the sent orders name, the snapshot quantity with the sent
  -- orders added.
  pub reconcile-ok_iff :
      (p c d : Dict D)
      → (is_ok (reconcile (some p) c (some d)) ≡ true)
        ↔ ((a : String) → Known p c d a → Agrees p c d a)
  unfolding reconcile is_ok
  reconcile-ok_iff p c d = (
    (λ h a k. nil-Agrees p c d (all_symbols p c d) (ground arith) a (Known-contains p c d a k)),
    (λ h. rw (Agrees-nil p c d (all_symbols p c d) (λ a m. h a (contains-Known p c d a m))) refl),
  )

  -- What a discrepancy of expected quantity `e` claims about the entries of its symbol in the
  -- snapshot, the holdings and the sent orders, by its kind.
  abbrev pub KindHolds : DiscrepancyKind → D → Option D → Option D → Option D → Type 0
  KindHolds new_symbol e p c d = (p ≡ none) × (d ≡ none)
  KindHolds missing_symbol e p c d =
      (c ≡ none) × ((e =? dec 0) ≡ false) × ((is_some p ≡ true) ⊎ (is_some d ≡ true))
  KindHolds quantity_mismatch e p c d =
      ((is_some p ≡ true) ⊎ (is_some d ≡ true)) × ((is_some c ≡ true) ⊎ ((e =? dec 0) ≡ true))

  -- A discrepancy is about a symbol whose two quantities differ, carries both, and has the kind
  -- that the books give.
  pub record IsRight (p c d : Dict D) (x : Discrepancy D) : Type 0 where
    pub expected_right : x.expected ≡ expected_of p d x.symbol
    pub actual_right : x.actual ≡ get_or_zero (lookup x.symbol c)
    pub differs : (x.actual =? x.expected) ≡ false
    pub kind_right :
        KindHolds x.kind x.expected (lookup x.symbol p) (lookup x.symbol c) (lookup x.symbol d)

  abbrev pub AllRight : Dict D → Dict D → Dict D → List (Discrepancy D) → Type 0
  AllRight p c d [] = Unit
  AllRight p c d (x ∷ xs) = IsRight p c d x × AllRight p c d xs

  kind_of_absent :
      (e : D) (p d : Option D)
      → (is_some p ≡ true) ⊎ (is_some d ≡ true)
      → (classify e p none d).0 ≡ (if e =? dec 0 then quantity_mismatch else missing_symbol)
  unfolding classify
  kind_of_absent e p d h = ground arith

  missing_holds :
      (e : D) (p d : Option D)
      → (is_some p ≡ true) ⊎ (is_some d ≡ true)
      → KindHolds (classify e p none d).0 e p none d
  missing_holds e p d h = rw (kind_of_absent e p d h) (split (e =? dec 0) refl)
    where
      split :
          (z : Bool)
          → (e =? dec 0) ≡ z
          → KindHolds (if z then quantity_mismatch else missing_symbol) e p none d
      split true q = (h, inr q)
      split false q = (refl, q, h)

  classify_holds : (e : D) (p c d : Option D) → KindHolds (classify e p c d).0 e p c d
  unfolding classify
  classify_holds e none c none = (refl, refl)
  classify_holds e none (some y) (some z) = (inr refl, inl refl)
  classify_holds e (some x) (some y) d = (inl refl, inl refl)
  classify_holds e none none (some z) = missing_holds e none (some z) (inr refl)
  classify_holds e (some x) none d = missing_holds e (some x) d (inl refl)

  agree_skips :
      (p c d : Dict D) (a : String) (rest : List (Discrepancy D))
      → Agrees p c d a
      → check_symbol p c d a rest ≡ rest
  unfolding check_symbol
  agree_skips p c d a rest h = rw h

  differ_adds :
      (p c d : Dict D) (a : String) (rest : List (Discrepancy D))
      → (get_or_zero (lookup a c) =? expected_of p d a) ≡ false
      → check_symbol p c d a rest
        ≡ record {
          kind = (classify (expected_of p d a) (lookup a p) (lookup a c) (lookup a d)).0;
          symbol = a;
          expected = expected_of p d a;
          actual = get_or_zero (lookup a c);
          detail = (classify (expected_of p d a) (lookup a p) (lookup a c) (lookup a d)).1;
        }
          ∷ rest
  unfolding check_symbol
  differ_adds p c d a rest h = rw h

  check_all-AllRight : (p c d : Dict D) (ss : List String) → AllRight p c d (check_all p c d ss)
  unfolding check_all
  check_all-AllRight p c d [] = tt
  check_all-AllRight p c d (s ∷ ss) =
      elim (Bool-cases (get_or_zero (lookup s c) =? expected_of p d s)) [
        | inl e ↦ rw (agree_skips p c d s _ e) (check_all-AllRight p c d ss)
        | inr e ↦ rw (differ_adds p c d s _ e) (
          record {
            expected_right = refl;
            actual_right = refl;
            differs = e;
            kind_right = classify_holds (expected_of p d s) (lookup s p) (lookup s c) (lookup s d);
          },
          check_all-AllRight p c d ss,
        )
      ]

  -- Every discrepancy of a report is about a symbol whose two quantities differ, carries both,
  -- and has the kind that the books give.
  pub reconcile-AllRight :
      (p c d : Dict D) → AllRight p c d (reconcile (some p) c (some d)).discrepancies
  unfolding reconcile
  reconcile-AllRight p c d = check_all-AllRight p c d (all_symbols p c d)
