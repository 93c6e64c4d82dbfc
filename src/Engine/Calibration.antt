-- ===== src/Engine/Calibration.antt =====
-- The calibration of the confidence (server/app/engine/calibration.py): forward returns, their
-- statistics by bucket, and the test for monotonicity. An ISO date is its ordinal, which keeps the
-- order.
pub mod Lookahead
use Prim.Native.Nat.{◌-◌}
use auto_trade_stock_demo.Prelude.{
  ℕ, zero, suc, Bool, true, false, not, ◌&&◌, ◌||◌, Option, none, some, List, [], ◌∷◌, length,
  get_elem?, ltb, if◌then◌else◌,
}
use auto_trade_stock_demo.Numeric.{Numeric, ◌-◌ as ◌⊖◌, ◌/◌, ◌<=◌, ◌>=◌, ◌>◌, dec, lit, min}
use auto_trade_stock_demo.Engine.Indicators.{sum_from}

-- A bucket is named by its limits.
pub record BucketStat (F : Type 0) : Type 0 where
  pub low : F
  pub high : F
  pub n : ℕ
  pub avg_return : F
  pub win_rate : F

-- `[c for d, c in daily_closes if d > decision_date]`
unfoldable pub after_date : {F : Type 0} → ℕ → List (ℕ × F) → List F
after_date date [] = []
after_date date ((d, c) ∷ rest) =
    let future = after_date date rest in if ltb date d then c ∷ future else future

module _ {F : Type 0} ⦃m : Numeric F⦄ where
  abbrev return_on : F → Option F → Option F
  return_on price none = none
  return_on price (some c) = some (c / price ⊖ dec 1)

  -- `forward_return`; the index is within the list where there are `horizon` closes.
  unfoldable pub forward_return : List (ℕ × F) → ℕ → F → ℕ → Option F
  unfolding after_date
  forward_return closes date price horizon =
      let future = after_date date closes in
      if (price <= dec 0) || ltb horizon 1
      then none
      else if ltb (length future) horizon
      then none
      else return_on price (get_elem? future (horizon - 1))

  -- `BUCKETS`
  unfoldable pub buckets : List (F × F)
  buckets =
      (dec 0, lit 5 1)
      ∷ (lit 5 1, lit 6 1)
      ∷ (lit 6 1, lit 7 1)
      ∷ (lit 7 1, lit 8 1)
      ∷ (lit 8 1, lit 9 1)
      ∷ (lit 9 1, lit 101 2)
      ∷ []

  -- `[r for c, r in samples if lo <= c < hi]`
  unfoldable pub returns_in : F → F → List (F × F) → List F
  returns_in lo hi [] = []
  returns_in lo hi ((c, r) ∷ rest) =
      let others = returns_in lo hi rest in
      if (lo <= c) && not (c >= hi) then r ∷ others else others

  unfoldable pub wins : List F → ℕ
  wins [] = 0
  wins (r ∷ rs) = let rest = wins rs in if r > dec 0 then suc rest else rest

  abbrev stat_of : F → F → List F → List (BucketStat F) → List (BucketStat F)
  stat_of lo hi [] rest = rest
  stat_of lo hi (r ∷ rs) rest =
      record {
        low = lo;
        high = min hi (dec 1);
        n = length (r ∷ rs);
        avg_return = sum_from (dec 0) (r ∷ rs) / dec (length (r ∷ rs));
        win_rate = dec (wins (r ∷ rs)) / dec (length (r ∷ rs));
      }
      ∷ rest

  unfoldable pub calibrate : List (F × F) → List (F × F) → List (BucketStat F)
  unfolding returns_in wins
  calibrate [] samples = []
  calibrate ((lo, hi) ∷ bs) samples =
      stat_of lo hi (returns_in lo hi samples) (calibrate bs samples)

  unfoldable pub bucket_calibration : List (F × F) → List (BucketStat F)
  unfolding calibrate buckets
  bucket_calibration samples = calibrate buckets samples

  unfoldable pub is_monotonic : List (BucketStat F) → Bool
  is_monotonic [] = true
  is_monotonic (s ∷ []) = true
  is_monotonic (s ∷ t ∷ rest) = (s.avg_return <= t.avg_return) && is_monotonic (t ∷ rest)
