-- ===== src/Engine/Universe.antt =====
-- The conservative universe (server/app/engine/universe.py): the exclusions of a stock by the
-- flags of the master and by its name. `str.upper` and `re.search` are an interface, `Texts`.
pub mod Eligibility
use auto_trade_stock_demo.Prelude.{
  String, Bool, true, false, not, ◌&&◌, Option, none, some, List, [], ◌∷◌, ◌++◌, contains, Message,
  Part, ◌==◌, if◌then◌else◌,
}
use auto_trade_stock_demo.Toss.{Stock, KoreanMarketDetail}
use auto_trade_stock_demo.Engine.Screener.{is_empty}

-- `s.upper()`, and `re.compile(pattern).search(s)` as a test.
pub record Texts : Type 0 where
  pub upper : String → String
  pub search : String → String → Bool

pub data UniverseExclusion : Type 0 where
  preferred_share preferred_share_by_name leveraged_or_inverse inactive liquidation suspended
        excluded_security_type spac_by_name etn_by_name :
      UniverseExclusion

pub record UniverseConfig : Type 0 where
  pub excluded_security_types : List String
  pub enable_name_fallback : Bool

pub record Exclusion (D : Type 0) : Type 0 where
  pub code : UniverseExclusion
  pub detail : Message D

pub record UniverseDecision (D : Type 0) : Type 0 where
  pub symbol : String
  pub eligible : Bool
  pub exclusions : List (Exclusion D)

-- `UniverseConfig()`
unfoldable pub default_universe : UniverseConfig
default_universe = record {
  excluded_security_types = "ETN" ∷ "SPAC" ∷ [];
  enable_name_fallback = true;
}

-- `_PREFERRED_NAME`, `_SPAC_NAME` and `_ETN_NAME`
abbrev pub preferred_pattern : String
preferred_pattern = "우[0-9]*[A-Z]?$"

abbrev pub spac_pattern : String
spac_pattern = "스팩|기업인수목적"

abbrev pub etn_pattern : String
etn_pattern = "ETN"

abbrev pub is_false : Option Bool → Bool
is_false none = false
is_false (some b) = not b

abbrev pub is_unknown : Option Bool → Bool
is_unknown none = true
is_unknown (some b) = false

-- `x or ""`
abbrev pub or_empty : Option String → String
or_empty none = ""
or_empty (some s) = s

-- The security type, in capitals.
abbrev pub type_of : {D : Type 0} → Texts → Stock D → String
type_of t s = t.upper (or_empty s.security_type)

module _ {D : Type 0} where
  abbrev exclusion_if : Bool → UniverseExclusion → Message D → List (Exclusion D)
  exclusion_if true c m = record { code = c; detail = m } ∷ []
  exclusion_if false c m = []

  abbrev leverage_check : Option D → List (Exclusion D)
  leverage_check none = []
  leverage_check (some f) =
      exclusion_if true leveraged_or_inverse (Part.lit "leverageFactor=" ∷ Part.num f ∷ [])

  abbrev status_check : Option String → List (Exclusion D)
  status_check none = []
  status_check (some s) =
      exclusion_if (not (s == "ACTIVE")) inactive (Part.lit "status=" ∷ Part.lit s ∷ [])

  abbrev detail_check : Option KoreanMarketDetail → List (Exclusion D)
  detail_check none = []
  detail_check (some md) =
      exclusion_if md.liquidation_trading liquidation (Part.lit "정리매매" ∷ [])
      ++ exclusion_if md.krx_trading_suspended suspended (Part.lit "거래정지" ∷ [])

  -- The flags of the master.
  unfoldable pub flag_checks : Texts → Stock D → UniverseConfig → List (Exclusion D)
  flag_checks t s cfg =
      exclusion_if (is_false s.is_common_share) preferred_share
        (Part.lit "isCommonShare=false" ∷ [])
      ++ leverage_check s.leverage_factor
      ++ status_check s.status
      ++ detail_check s.korean_market_detail
      ++ exclusion_if
          (not (type_of t s == "") && contains cfg.excluded_security_types (type_of t s))
          excluded_security_type
          (Part.lit "securityType=" ∷ Part.lit (or_empty s.security_type) ∷ [])

  -- The patterns on the name, for what the flags leave open.
  unfoldable pub name_checks : Texts → Stock D → UniverseConfig → List (Exclusion D)
  name_checks t s cfg =
      if cfg.enable_name_fallback
      then exclusion_if (is_unknown s.is_common_share && t.search preferred_pattern s.name)
          preferred_share_by_name (Part.lit "name~우: " ∷ Part.lit s.name ∷ [])
        ++ exclusion_if (not (type_of t s == "SPAC") && t.search spac_pattern s.name) spac_by_name
            (Part.lit "name~스팩: " ∷ Part.lit s.name ∷ [])
        ++ exclusion_if (not (type_of t s == "ETN") && t.search etn_pattern s.name) etn_by_name
            (Part.lit "name~ETN: " ∷ Part.lit s.name ∷ [])
      else []

  unfoldable pub evaluate_stock : Texts → Stock D → UniverseConfig → UniverseDecision D
  unfolding flag_checks name_checks
  evaluate_stock t s cfg =
      let ex = flag_checks t s cfg ++ name_checks t s cfg in
      record { symbol = s.symbol; eligible = is_empty ex; exclusions = ex }

  unfoldable pub partition_universe :
      Texts → List (Stock D) → UniverseConfig → List (Stock D) × List (UniverseDecision D)
  unfolding evaluate_stock
  partition_universe t [] cfg = ([], [])
  partition_universe t (s ∷ ss) cfg =
      let (eligible, excluded) = partition_universe t ss cfg in
      let d = evaluate_stock t s cfg in
      if d.eligible then (s ∷ eligible, excluded) else (eligible, d ∷ excluded)

  unfoldable pub filter_universe : Texts → List (Stock D) → UniverseConfig → List (Stock D)
  unfolding partition_universe
  filter_universe t ss cfg = (partition_universe t ss cfg).0
