-- ===== src/Toss/Client/Costs.antt =====
-- Bounds on the calls of the client, and what a token costs (`_fetch_token`, `_ensure_token`).
use Prim.Native.Nat.{◌+◌}
use auto_trade_stock_demo.Prelude.{
  ℕ, suc, ◌≤◌, true, none, ◌≡◌, refl, ◌∙◌, arith, Bool-cases, inl, inr, ◌⊎◌,
}
use auto_trade_stock_demo.Toss.Client.{
  Server, TokenReply, granted, denied, unreachable, HttpResponse, TossClient, Answer, ok,
  token_valid, fetch_token, ensure_token, text_or_empty, with_token,
}
use auto_trade_stock_demo.Toss.Client.Retries.{IsSent}

-- At most `n` calls and `k` requests for a token, under the same configuration.
pub record Spent {F : Type 0} (n k : ℕ) (c d : TossClient F) : Type 0 where
  pub few_calls : d.calls ≤ c.calls + n
  pub few_fetches : d.fetches ≤ c.fetches + k
  pub kept_fetches : c.fetches ≤ d.fetches
  pub same_config : d.config ≡ c.config

pub Spent-trans :
    {F : Type 0} {n k n' k' : ℕ} {c d e : TossClient F}
    → Spent n k c d
    → Spent n' k' d e
    → Spent (n + n') (k + k') c e
Spent-trans p q = record {
  few_calls = let a = p.few_calls in let b = q.few_calls in omega arith;
  few_fetches = let a = p.few_fetches in let b = q.few_fetches in omega arith;
  kept_fetches = let a = p.kept_fetches in let b = q.kept_fetches in omega arith;
  same_config = q.same_config ∙ p.same_config;
}

-- One request for a token and no other call.
pub record Asked {F : Type 0} (c d : TossClient F) : Type 0 where
  pub same_calls : d.calls ≡ c.calls
  pub one_fetch : d.fetches ≡ suc c.fetches
  pub same_config : d.config ≡ c.config

pub Asked-Spent : {F : Type 0} {c d : TossClient F} → Asked c d → Spent 0 1 c d
Asked-Spent a = record {
  few_calls = let h = a.same_calls in omega arith;
  few_fetches = let h = a.one_fetch in omega arith;
  kept_fetches = let h = a.one_fetch in omega arith;
  same_config = a.same_config;
}

-- No more than `n` calls, and none for a token.
pub IsSent-Spent :
    {F : Type 0} (c : TossClient F) (n : ℕ) (out : TossClient F × Answer HttpResponse)
    → IsSent c n out
    → Spent (suc n) 0 c out.0
IsSent-Spent c n out i = record {
  few_calls = i.few_calls;
  few_fetches = let h = i.same_fetches in omega arith;
  kept_fetches = let h = i.same_fetches in omega arith;
  same_config = i.same_config;
}

pub Spent-refl : {F : Type 0} (c : TossClient F) → Spent 0 1 c c
Spent-refl c = record {
  few_calls = omega arith;
  few_fetches = omega arith;
  kept_fetches = omega arith;
  same_config = refl;
}

pub Spent-widen :
    {F : Type 0} {n m k j : ℕ} {c d : TossClient F} → n ≤ m → k ≤ j → Spent n k c d → Spent m j c d
Spent-widen l r p = record {
  few_calls = let a = p.few_calls in omega arith;
  few_fetches = let a = p.few_fetches in omega arith;
  kept_fetches = p.kept_fetches;
  same_config = p.same_config;
}

pub Spent-none : {F : Type 0} {n : ℕ} (c : TossClient F) → Spent n 0 c c
Spent-none c = record {
  few_calls = omega arith;
  few_fetches = omega arith;
  kept_fetches = omega arith;
  same_config = refl;
}

module _ {F : Type 0} where
  pub with_token-Asked :
      (c : TossClient F) (now : ℕ) (g : TokenReply) → Asked c (with_token c now g).0
  with_token-Asked c now (granted t span) = record {
    same_calls = refl;
    one_fetch = refl;
    same_config = refl;
  }
  with_token-Asked c now (denied status body) = record {
    same_calls = refl;
    one_fetch = refl;
    same_config = refl;
  }
  with_token-Asked c now unreachable = record {
    same_calls = refl;
    one_fetch = refl;
    same_config = refl;
  }

  pub fetch_token-Asked :
      (srv : Server) (c : TossClient F) (now : ℕ) → Asked c (fetch_token srv c now).0
  unfolding fetch_token
  fetch_token-Asked srv c now = with_token-Asked c now (srv.grant c.fetches)

  -- The token is either a valid one, at no cost, or asked for.
  pub ensure_token_cases :
      (srv : Server) (c : TossClient F) (now : ℕ)
      → ((ensure_token srv c now ≡ (c, ok (text_or_empty c.token))) × (token_valid c now ≡ true))
        ⊎ (ensure_token srv c now ≡ fetch_token srv c now)
  unfolding ensure_token
  ensure_token_cases srv c now = elim (Bool-cases (token_valid c now)) [
    | inl e ↦ inl (rw e refl, e)
    | inr e ↦ inr (rw e refl)
  ]

  pub ensure_token-none :
      (srv : Server) (c : TossClient F) (now : ℕ)
      → c.token ≡ none
      → ensure_token srv c now ≡ fetch_token srv c now
  unfolding ensure_token token_valid
  ensure_token-none srv c now e = rw e refl
