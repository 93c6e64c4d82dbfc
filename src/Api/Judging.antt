-- ===== src/Api/Judging.antt =====
-- The parts of a tick that its settings choose (server/app/api/tick.py): the watch list, the judge
-- and the research with the guard on costs, the entry gate and the regime filter.
pub mod Capped
use Prim.Native.Nat.{◌*◌ as nat_mul, ◌-◌ as nat_sub}
use auto_trade_stock_demo.Prelude.{
  ℕ, String, Bool, true, false, ◌&&◌, Option, none, some, List, [], ◌∷◌, ltb, leb, ◌==◌, ◌≡◌, ◌↔◌,
  arith, ◌<◌, if◌then◌else◌,
}
use auto_trade_stock_demo.Numeric.{Numeric}
use auto_trade_stock_demo.Clock.{DateTime, day}
use auto_trade_stock_demo.Core.Settings.{Settings}
use auto_trade_stock_demo.Engine.Costs.{EntryGate, default_gate}
use auto_trade_stock_demo.Engine.Regime.{RegimeConfig, default_regime}
use auto_trade_stock_demo.Engine.Symbols.{CodeTexts, resolve_universe}
use auto_trade_stock_demo.Db.Rows.{Database}
use auto_trade_stock_demo.Db.Ledger.{count_ticks, count_decisions_today, trade_date_kst, has_text}
use auto_trade_stock_demo.Db.Stats.{load_adv_pool, load_fresh_symbols}

-- `[s.strip() for s in texts if s.strip()]`, for the parts of the watch list and `str.strip`.
unfoldable pub watched_codes : (String → String) → List String → List String
watched_codes strip [] = []
watched_codes strip (t ∷ ts) =
    let rest = watched_codes strip ts in if strip t == "" then rest else strip t ∷ rest

-- `now - timedelta(days=14)`
abbrev two_weeks_before : DateTime → DateTime
two_weeks_before t = record t { instant = nat_sub t.instant (nat_mul 14 day) }

-- The inputs of the choice of the universe that the database has, or those without one.
abbrev pub universe_inputs :
    {F D : Type 0} ⦃m : Numeric F⦄
    → Bool
    → Database F D
    → Settings F D
    → DateTime
    → ℕ × List String × List String
universe_inputs false db st now = (0, [], [])
universe_inputs true db st now = (
  count_ticks db,
  load_adv_pool db st.adv_pool_size,
  load_fresh_symbols db (trade_date_kst (two_weeks_before now)),
)

-- The watch list of a tick: that of the settings, or the universe around it if there is a source
-- of symbols with these codes. `share` is `ceil(limit * explore_ratio)`.
unfoldable pub watch_of :
    {F D : Type 0} ⦃m : Numeric F⦄
    → CodeTexts
    → Bool
    → Database F D
    → Settings F D
    → DateTime
    → List String
    → List String
    → ℕ
    → List String
watch_of t has_repo db st now seed include share =
    let (ticks, pool, recent) = universe_inputs has_repo db st now in
    if has_text st.symbol_source_path
    then resolve_universe t seed st.universe_max_symbols include ticks pool recent share
    else include

-- Which judge decides, and where its research comes from.
pub data Engine : Type 0 where
  no_key capped : Engine
  language_model : Bool → Engine

-- The number of the decisions of this day has reached the limit.
unfoldable pub llm_capped : {F D : Type 0} → Bool → Database F D → Settings F D → DateTime → Bool
unfolding count_decisions_today
llm_capped has_repo db st now =
    has_repo
    && (ltb 0 st.daily_llm_decision_cap
        && leb st.daily_llm_decision_cap (count_decisions_today db (trade_date_kst now)))

-- The language model is used if there is a key for it and the limit is not reached; its research is
-- cached if there is a database and a time to live.
unfoldable pub engine_of : {F D : Type 0} → Bool → Database F D → Settings F D → DateTime → Engine
unfolding llm_capped
engine_of has_repo db st now =
    if has_text st.anthropic_api_key
    then (if llm_capped has_repo db st now
        then capped
        else language_model (has_repo && ltb 0 st.research_cache_ttl_minutes))
    else no_key

abbrev pub uses_model : Engine → Bool
uses_model no_key = false
uses_model capped = false
uses_model (language_model cached) = true

module _ {F D : Type 0} ⦃n : Numeric D⦄ where
  unfoldable pub gate_of : Settings F D → EntryGate D
  gate_of st = record {
    cost = record {
      commission_rate = st.cost_commission_rate;
      slippage_rate = st.cost_slippage_rate;
      sell_tax_rate = st.cost_sell_tax_rate;
    };
    config = record default_gate {
      cost_multiple = st.entry_cost_multiple;
      move_multiple = st.entry_move_multiple;
    };
  }

  unfoldable pub regime_config_of : Settings F D → Option (RegimeConfig D)
  regime_config_of st =
      if st.regime_symbol == ""
      then none
      else some (record default_regime {
        symbol = st.regime_symbol;
        calm_vol = st.regime_calm_vol;
        stress_vol = st.regime_stress_vol;
        elevated_multiplier = st.regime_elevated_multiplier;
        stress_multiplier = st.regime_stress_multiplier;
      })
