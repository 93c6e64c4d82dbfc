-- ===== src/Engine/Universe/Eligibility.antt =====
-- Which stocks stay in the universe.
use Prim.Native.Nat.{◌+◌}
use auto_trade_stock_demo.Prelude.{
  true, false, none, some, List, [], ◌∷◌, ◌++◌, contains, ◌≡◌, ◌≢◌, ◌↔◌, arith, eq_iff, length, inl,
  inr, refl, Bool-cases, IfKnown,
}
use auto_trade_stock_demo.Toss.{Stock}
use auto_trade_stock_demo.Engine.Universe.{
  Texts, UniverseConfig, UniverseDecision, Exclusion, type_of, or_empty, preferred_pattern,
  spac_pattern, etn_pattern, flag_checks, name_checks, evaluate_stock, partition_universe,
}

module _ {D : Type 0} where
  -- What the flags of the master have to say.
  abbrev pub FlagsClear : Texts → Stock D → UniverseConfig → Type 0
  FlagsClear t s cfg =
      (s.is_common_share ≢ some false)
      × (s.leverage_factor ≡ none)
      × IfKnown s.status (λ st. st ≡ "ACTIVE")
      × IfKnown s.korean_market_detail
          (λ md. (md.liquidation_trading ≡ false) × (md.krx_trading_suspended ≡ false))
      × (type_of t s ≢ "" → contains cfg.excluded_security_types (type_of t s) ≡ false)

  -- What the name has to say, where the flags leave it open.
  abbrev pub NameClear : Texts → Stock D → Type 0
  NameClear t s =
      (s.is_common_share ≡ none → t.search preferred_pattern s.name ≡ false)
      × (type_of t s ≢ "SPAC" → t.search spac_pattern s.name ≡ false)
      × (type_of t s ≢ "ETN" → t.search etn_pattern s.name ≡ false)

  flag_checks-nil_iff :
      (t : Texts) (s : Stock D) (cfg : UniverseConfig)
      → (flag_checks t s cfg ≡ []) ↔ FlagsClear t s cfg
  unfolding flag_checks
  flag_checks-nil_iff t s cfg =
      ground (arith, eq_iff (type_of t s) "", eq_iff (or_empty s.status) "ACTIVE")

  name_checks-nil_iff :
      (t : Texts) (s : Stock D) (cfg : UniverseConfig)
      → (name_checks t s cfg ≡ []) ↔ (cfg.enable_name_fallback ≡ true → NameClear t s)
  unfolding name_checks
  name_checks-nil_iff t s cfg =
      ground (arith, eq_iff (type_of t s) "SPAC", eq_iff (type_of t s) "ETN")

  append-nil_iff : (xs ys : List (Exclusion D)) → (xs ++ ys ≡ []) ↔ ((xs ≡ []) × (ys ≡ []))
  append-nil_iff [] ys = ground arith
  append-nil_iff (x ∷ xs) ys = ground arith

  eligible-nil_iff :
      (t : Texts) (s : Stock D) (cfg : UniverseConfig)
      → ((evaluate_stock t s cfg).eligible ≡ true)
        ↔ (flag_checks t s cfg ++ name_checks t s cfg ≡ [])
  unfolding evaluate_stock
  eligible-nil_iff t s cfg = ground arith

  -- A stock is eligible exactly if the flags of the master are clear and, with the fallback
  -- on, its name is clear where the flags leave it open.
  pub evaluate_stock-eligible_iff :
      (t : Texts) (s : Stock D) (cfg : UniverseConfig)
      → ((evaluate_stock t s cfg).eligible ≡ true)
        ↔ (FlagsClear t s cfg × (cfg.enable_name_fallback ≡ true → NameClear t s))
  evaluate_stock-eligible_iff t s cfg =
      let (out, back) = eligible-nil_iff t s cfg in
      let (split, join) = append-nil_iff (flag_checks t s cfg) (name_checks t s cfg) in
      let (flags, flags_back) = flag_checks-nil_iff t s cfg in
      let (name, name_back) = name_checks-nil_iff t s cfg in
      (
        λ h. (flags (split (out h)).0, name (split (out h)).1),
        λ h. back (join (flags_back h.0, name_back h.1)),
      )

  abbrev pub AllEligible : Texts → UniverseConfig → List (Stock D) → Type 0
  AllEligible t cfg [] = Unit
  AllEligible t cfg (s ∷ ss) = ((evaluate_stock t s cfg).eligible ≡ true) × AllEligible t cfg ss

  abbrev pub AllExplained : List (UniverseDecision D) → Type 0
  AllExplained [] = Unit
  AllExplained (d ∷ ds) = (d.eligible ≡ false) × (d.exclusions ≢ []) × AllExplained ds

  -- What is kept is eligible, what is dropped comes with its reasons, and nothing is lost.
  abbrev pub IsPartition :
      Texts → UniverseConfig → List (Stock D) → List (Stock D) × List (UniverseDecision D) → Type 0
  IsPartition t cfg ss (kept, dropped) =
      AllEligible t cfg kept × AllExplained dropped × (length kept + length dropped ≡ length ss)

  explained :
      (t : Texts) (s : Stock D) (cfg : UniverseConfig)
      → (evaluate_stock t s cfg).eligible ≡ false
      → (evaluate_stock t s cfg).exclusions ≢ []
  unfolding evaluate_stock
  explained t s cfg h = ground arith

  pub partition_universe-IsPartition :
      (t : Texts) (ss : List (Stock D)) (cfg : UniverseConfig)
      → IsPartition t cfg ss (partition_universe t ss cfg)
  unfolding partition_universe
  partition_universe-IsPartition t [] cfg = (tt, tt, refl)
  partition_universe-IsPartition t (s ∷ ss) cfg =
      let (a, b, c) = partition_universe-IsPartition t ss cfg in
      elim (Bool-cases (evaluate_stock t s cfg).eligible) [
        | inl e ↦ rw e ((e, a), b, omega (arith, c))
        | inr e ↦ rw e (a, (refl, explained t s cfg e, b), omega (arith, c))
      ]
