-- ===== src/Engine/Evaluation.antt =====
-- The evaluation of the equity curve (server/app/engine/evaluation.py). `math.sqrt` is an argument,
-- and the float of an equity is taken before.
use auto_trade_stock_demo.Prelude.{
  ℕ, Bool, false, not, ◌&&◌, Option, none, some, List, [], ◌∷◌, length, get_last?, ltb, Message,
  Part, if◌then◌else◌,
}
use Prim.Native.Nat.{◌-◌ as nat_sub}
use auto_trade_stock_demo.Numeric.{Numeric, ◌+◌, ◌-◌, ◌*◌, ◌/◌, neg, ◌>=◌, ◌>◌, dec, lit, max}
use auto_trade_stock_demo.Engine.Indicators.{sum_from}

pub record EvalReport (F : Type 0) : Type 0 where
  pub n_days : ℕ
  pub n_trades : ℕ
  pub cumulative_return : Option F
  pub sharpe_annual : Option F
  pub sharpe_se_annual : Option F
  pub mdd : Option F
  pub benchmark_return : Option F
  pub excess_return : Option F
  pub verdict : Message F

abbrev map_option : {A B : Type 0} → (A → B) → Option A → Option B
map_option f none = none
map_option f (some a) = some (f a)

-- `[float(p) for _, p in daily_benchmark if p is not None]`
unfoldable pub known_prices : {F : Type 0} → List (Option F) → List F
known_prices [] = []
known_prices (none ∷ ps) = known_prices ps
known_prices (some p ∷ ps) = p ∷ known_prices ps

module _ {F : Type 0} ⦃m : Numeric F⦄ where
  -- `_returns`
  unfoldable pub returns_of : List F → List F
  returns_of [] = []
  returns_of (prev ∷ []) = []
  returns_of (prev ∷ cur ∷ rest) =
      let tail = returns_of (cur ∷ rest) in
      if prev > dec 0 then (cur / prev - dec 1) ∷ tail else tail

  abbrev peak_of : Option F → F → F
  peak_of none v = v
  peak_of (some p) v = max p v

  -- `_mdd`, from a peak (`none` for minus infinity) and the worst drawdown so far.
  unfoldable pub mdd_from : Option F → F → List F → F
  mdd_from peak worst [] = worst
  mdd_from peak worst (v ∷ vs) =
      let p = peak_of peak v in
      mdd_from (some p) (if p > dec 0 then max worst ((p - v) / p) else worst) vs

  unfoldable pub mdd_of : List F → F
  unfolding mdd_from
  mdd_of vs = mdd_from none (dec 0) vs

  -- `xs[-1] / xs[0] - 1.0`
  abbrev whole_return : List F → Option F → Option F
  whole_return [] last = none
  whole_return (x ∷ xs) none = none
  whole_return (x ∷ xs) (some l) = some (l / x - dec 1)

  abbrev first_positive : List F → Bool
  first_positive [] = false
  first_positive (p ∷ ps) = p > dec 0

  unfoldable pub benchmark_of : List F → Option F
  benchmark_of prices =
      if not (ltb (length prices) 2) && first_positive prices
      then whole_return prices (get_last? prices)
      else none

  unfoldable pub benchmark_return : Option (List (Option F)) → Option F
  unfolding benchmark_of known_prices
  benchmark_return none = none
  benchmark_return (some ps) = benchmark_of (known_prices ps)

  unfoldable pub squares_from : F → F → List F → F
  squares_from mean acc [] = acc
  squares_from mean acc (r ∷ rs) = squares_from mean (acc + (r - mean) * (r - mean)) rs

  abbrev absolute : F → F
  absolute a = if a >= dec 0 then a else neg a

  abbrev judged_sharpe : Option F → Option F → Message F
  judged_sharpe none se = Part.lit "판단 불가 — 수익률 변동 없음(σ=0)" ∷ []
  judged_sharpe (some sr) none = Part.lit "판단 불가 — 수익률 변동 없음(σ=0)" ∷ []
  judged_sharpe (some sr) (some se) =
      if not (absolute sr >= dec 2 * se)
      then Part.lit "유의성 부족 — |SR "
        ∷ Part.fmt ".2f" sr
        ∷ Part.lit "| < 2×SE "
        ∷ Part.fmt ".2f" se
        ∷ Part.lit " (운과 구분 불가)"
        ∷ []
      else Part.lit "표본·유의성 기준 충족 — 벤치마크 대비·MDD 를 함께 검토" ∷ []

  unfoldable pub verdict_of : ℕ → ℕ → Option F → Option F → Message F
  verdict_of n_trades min_trades sharpe se =
      if ltb n_trades min_trades
      then Part.lit "판단 보류 — 완결 트레이드 N="
        ∷ Part.nat n_trades
        ∷ Part.lit " < "
        ∷ Part.nat min_trades
        ∷ Part.lit " (표본 부족: 운/실력 구분 불가)"
        ∷ []
      else judged_sharpe sharpe se

  abbrev minus_option : Option F → Option F → Option F
  minus_option none b = none
  minus_option (some a) none = none
  minus_option (some a) (some b) = some (a - b)

  unfoldable pub report_of :
      (F → F) → List F → List F → Option (List (Option F)) → ℕ → ℕ → EvalReport F
  unfolding mdd_of benchmark_return squares_from verdict_of
  report_of sqrt equity rets benchmark n_trades min_trades =
      let n = length rets in
      let mean = sum_from (dec 0) rets / dec n in
      let std = sqrt (squares_from mean (dec 0) rets / dec (nat_sub n 1)) in
      let daily = if std > dec 0 then some (mean / std) else none in
      let annual = map_option (λ s. s * sqrt (dec 252)) daily in
      let error =
        map_option (λ s. sqrt ((dec 1 + lit 5 1 * (s * s)) / dec n) * sqrt (dec 252)) daily in
      let cumulative = whole_return equity (get_last? equity) in
      let bench = benchmark_return benchmark in
      record {
        n_days = n;
        n_trades = n_trades;
        cumulative_return = cumulative;
        sharpe_annual = annual;
        sharpe_se_annual = error;
        mdd = some (mdd_of equity);
        benchmark_return = bench;
        excess_return = minus_option cumulative bench;
        verdict = verdict_of n_trades min_trades annual error;
      }

  -- `evaluate(daily_equity, daily_benchmark, n_trades, min_trades)`
  unfoldable pub evaluate_curve : (F → F) → List F → Option (List (Option F)) → ℕ → ℕ → EvalReport F
  unfolding returns_of report_of
  evaluate_curve sqrt equity benchmark n_trades min_trades =
      if ltb (length (returns_of equity)) 2
      then record {
        n_days = length (returns_of equity);
        n_trades = n_trades;
        cumulative_return = none;
        sharpe_annual = none;
        sharpe_se_annual = none;
        mdd = none;
        benchmark_return = none;
        excess_return = none;
        verdict = Part.lit "평가 불가 — 일일 수익률 표본 부족(2일 미만)" ∷ [];
      }
      else report_of sqrt equity (returns_of equity) benchmark n_trades min_trades
