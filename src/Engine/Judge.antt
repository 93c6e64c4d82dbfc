-- ===== src/Engine/Judge.antt =====
-- The judgement stage (server/app/engine/llm.py, and the fallback judge of
-- server/app/engine/pipeline.py): decisions, candidate contexts, and what is done to the answer of
-- a judge. The prompt and the call of the language model are left out: a judge is a function.
pub mod Candidates
use auto_trade_stock_demo.Prelude.{
  ℕ, String, Bool, true, false, not, ◌&&◌, Option, none, some, List, [], ◌∷◌, ◌++◌, map, Dict,
  lookup, insert, keys, contains, is_some, take, Message, Part, if◌then◌else◌,
}
use auto_trade_stock_demo.Numeric.{Numeric, ◌*◌, ◌>◌, dec, lit, min, max}
use auto_trade_stock_demo.Toss.{Stock, HoldingItem, Holdings}
use auto_trade_stock_demo.Engine.Screener.{ScreenIndicators, ScreenResult}

pub data Action : Type 0 where
  buy sell hold : Action

pub record Decision (F D : Type 0) : Type 0 where
  pub action : Action
  pub symbol : String
  pub confidence : F
  pub rationale : Message D
  pub decision_price : Option F

pub record ResearchNote : Type 0 where
  pub symbol : String
  pub summary : String
  pub sources : List String

pub record CandidateContext (F D : Type 0) : Type 0 where
  pub symbol : String
  pub name : String
  pub market : Option String
  pub currency : Option String
  pub indicators : Option (ScreenIndicators F)
  pub score : F
  pub already_held : Bool
  pub held_quantity : Option D
  pub avg_purchase_price : Option D
  pub pl_rate : Option D
  pub recent_closes : Option (List F)
  pub portfolio_value_krw : Option D
  pub cash_buying_power_krw : Option D
  pub research : Option ResearchNote
  pub market_regime : Option (Message D)

-- `decide`, of a judge that answers.
abbrev pub DecisionProvider : Type 0 → Type 0 → Type 0
DecisionProvider F D = CandidateContext F D → Decision F D

abbrev pub is_sell : Action → Bool
is_sell sell = true
is_sell _ = false

module _ {F D : Type 0} ⦃m : Numeric F⦄ where
  -- `_normalize(decision, ctx)`
  unfoldable pub normalize : Decision F D → CandidateContext F D → Decision F D
  normalize d ctx = record d {
    action = if is_sell d.action && not ctx.already_held then hold else d.action;
    symbol = ctx.symbol;
    confidence = min (max d.confidence (dec 0)) (dec 1);
  }

  abbrev fallback : CandidateContext F D → Decision F D
  fallback ctx =
      let conf = min (max (ctx.score * dec 10) (dec 0)) (dec 1) in
      record {
        action = if conf > dec 0 then buy else hold;
        symbol = ctx.symbol;
        confidence = conf;
        rationale = Part.lit "결정적 폴백: 스크리너 통과 매수후보" ∷ [];
        decision_price = none;
      }

  -- `DeterministicJudge.decide`
  unfoldable pub deterministic_judge : CandidateContext F D → Decision F D
  deterministic_judge ctx =
      if not ctx.already_held && is_some ctx.indicators then fallback ctx else record {
        action = hold;
        symbol = ctx.symbol;
        confidence = lit 3 1;
        rationale = Part.lit "결정적 폴백: 보유 유지" ∷ [];
        decision_price = none;
      }

abbrev pub first_n {ℓ} : {A : Type ℓ} → Option ℕ → List A → List A
first_n none xs = xs
first_n (some k) xs = take k xs

-- `decide_candidates(candidates, judge, top_n)`
unfoldable pub decide_candidates :
    {F D : Type 0}
    → List (CandidateContext F D)
    → DecisionProvider F D
    → Option ℕ
    → List (Decision F D)
decide_candidates candidates judge top_n = map judge (first_n top_n candidates)

-- `{i.symbol: i for i in items}`
unfoldable pub by_symbol : {A : Type 0} → (A → String) → List A → Dict A → Dict A
by_symbol symbol_of [] d = d
by_symbol symbol_of (i ∷ is) d = by_symbol symbol_of is (insert (symbol_of i) i d)

-- `list(dict.fromkeys(xs))`, after `seen`
unfoldable pub unique : List String → List String → List String
unique [] seen = seen
unique (x ∷ xs) seen = if contains seen x then unique xs seen else unique xs (seen ++ x ∷ [])

abbrev pub items_of : {D : Type 0} → Option (Holdings D) → Dict (HoldingItem D)
items_of none = []
items_of (some h) = by_symbol (λ i. i.symbol) h.items []

abbrev stock_market : {D : Type 0} → Option (Stock D) → Option String
stock_market none = none
stock_market (some s) = s.market

module _ {D : Type 0} where
  abbrev name_of : String → Option (Stock D) → Option (HoldingItem D) → String
  name_of sym (some s) item = s.name
  name_of sym none (some i) = i.name
  name_of sym none none = sym

  abbrev currency_of : Option (Stock D) → Option (HoldingItem D) → Option String
  currency_of (some s) item = s.currency
  currency_of none (some i) = some i.currency
  currency_of none none = none

  abbrev item_field : {A : Type 0} → (HoldingItem D → A) → Option (HoldingItem D) → Option A
  item_field f none = none
  item_field f (some i) = some (f i)

  abbrev portfolio_of : Option (Holdings D) → Option D
  portfolio_of none = none
  portfolio_of (some h) = some h.market_value_krw

-- `by_symbol.get(sym, (holding_indicators.get(sym), 0.0))`
abbrev pub screened :
    {F : Type 0} ⦃m : Numeric F⦄
    → Option (ScreenResult F)
    → Option (ScreenIndicators F)
    → Option (ScreenIndicators F) × F
screened (some r) ind = (some r.indicators, r.score)
screened none ind = (ind, dec 0)

-- The symbols of the candidates: the screened ones, then the other held ones.
unfoldable pub candidate_symbols :
    {F D : Type 0} → List (ScreenResult F) → Option (Holdings D) → List String
unfolding by_symbol unique
candidate_symbols results holdings =
    unique (keys (by_symbol (λ r. r.symbol) results []) ++ keys (items_of holdings)) []

module _ {F D : Type 0} ⦃m : Numeric F⦄ where
  -- The context of one symbol.
  unfoldable pub candidate_of :
      Dict (ScreenResult F)
      → Dict (Stock D)
      → Dict (HoldingItem D)
      → Option D
      → Dict (ScreenIndicators F)
      → Dict (List F)
      → Option D
      → String
      → CandidateContext F D
  candidate_of results stocks held portfolio indicators closes cash sym =
      let (ind, sc) = screened (lookup sym results) (lookup sym indicators) in
      let item = lookup sym held in
      record {
        symbol = sym;
        name = name_of sym (lookup sym stocks) item;
        market = stock_market (lookup sym stocks);
        currency = currency_of (lookup sym stocks) item;
        indicators = ind;
        score = sc;
        already_held = is_some item;
        held_quantity = item_field (λ i. i.quantity) item;
        avg_purchase_price = item_field (λ i. i.average_purchase_price) item;
        pl_rate = item_field (λ i. i.rate) item;
        recent_closes = lookup sym closes;
        portfolio_value_krw = portfolio;
        cash_buying_power_krw = cash;
        research = none;
        market_regime = none;
      }

  unfoldable pub candidate_contexts :
      List (ScreenResult F)
      → Dict (Stock D)
      → Option (Holdings D)
      → Dict (ScreenIndicators F)
      → Dict (List F)
      → Option D
      → List (CandidateContext F D)
  unfolding candidate_symbols candidate_of by_symbol
  candidate_contexts results stocks holdings indicators closes cash =
      map
        (candidate_of (by_symbol (λ r. r.symbol) results []) stocks (items_of holdings)
          (portfolio_of holdings) indicators closes cash)
        (candidate_symbols results holdings)
