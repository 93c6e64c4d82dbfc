-- ===== src/Toss/Client/Lookups.antt =====
-- What a request on behalf of an account costs, with the lookup of its number (`_request`,
-- `_ensure_account_seq`).
use Prim.Native.Nat.{◌+◌}
use auto_trade_stock_demo.Prelude.{
  ℕ, suc, String, false, Option, some, none, List, [], ◌∷◌, ◌≡◌, ◌≤◌, refl, ◌∙◌, sym, ap, arith,
  inl, inr, ◌⊎◌,
}
use mathlib.Core.Path.{subst}
use auto_trade_stock_demo.Numeric.{Numeric}
use auto_trade_stock_demo.Toss.Client.{
  Server, TossClient, Answer, ok, api, network, fetch_token, ensure_account_seq, first_account,
  account_from, sent_with, second_try, make_request, headed_with, account_sent_with,
  second_account_try, account_request, text_or_empty,
}
use auto_trade_stock_demo.Toss.Client.Bodies.{Json}
use auto_trade_stock_demo.Toss.Client.Costs.{
  Spent, Spent-trans, Spent-widen, Spent-none, Asked, Asked-Spent, fetch_token-Asked,
  ensure_token_cases,
}
use auto_trade_stock_demo.Toss.Client.Requests.{
  IsRequested, IsRequested-after, sent_ok-IsRequested, make_request-IsRequested,
}
use auto_trade_stock_demo.Toss.Client.Accounts.{sent_with_again, second_try_known}

-- Wider bounds.
IsRequested-widen :
    {F A : Type 0} {n k i j : ℕ} {c : TossClient F} {out : TossClient F × Answer A}
    → n ≤ i
    → k ≤ j
    → IsRequested c n k out
    → IsRequested c i j out
IsRequested-widen l r q = record { spent = Spent-widen l r q.spent; renewed = q.renewed }

-- A number that was found is the one that the client keeps.
abbrev Keeps : {F : Type 0} → TossClient F × Answer ℕ → Type 0
Keeps out = (a : ℕ) → out.1 ≡ ok a → (out.0).account_seq ≡ some a

-- The value of an answer.
abbrev value_of : Answer ℕ → Option ℕ
value_of (ok a) = some a
value_of (api e) = none
value_of network = none

module _ {F : Type 0} ⦃m : Numeric F⦄ (parse_float : String → Option F) where
  first_account-IsRequested :
      (c d : TossClient F) (n k : ℕ) (accounts : List ℕ)
      → Spent n k c d
      → IsRequested c n k (first_account parse_float d accounts)
  first_account-IsRequested c d n k [] h = record { spent = h; renewed = λ u. cc }
  first_account-IsRequested c d n k (a ∷ rest) h = record {
    spent = record {
      few_calls = h.few_calls;
      few_fetches = h.few_fetches;
      kept_fetches = h.kept_fetches;
      same_config = h.same_config;
    };
    renewed = λ u. cc;
  }

  account_from-IsRequested :
      (srv : Server) (c : TossClient F) (n k : ℕ) (out : TossClient F × Answer Json)
      → IsRequested c n k out
      → IsRequested c n k (account_from parse_float srv out)
  account_from-IsRequested srv c n k (d, ok body) h =
      first_account-IsRequested c d n k (srv.account_seqs body) h.spent
  account_from-IsRequested srv c n k (d, api e) h = record { spent = h.spent; renewed = h.renewed }
  account_from-IsRequested srv c n k (d, network) h = record {
    spent = h.spent;
    renewed = h.renewed;
  }

  first_account-Keeps :
      (d : TossClient F) (accounts : List ℕ) → Keeps (first_account parse_float d accounts)
  first_account-Keeps d [] a e = cc
  first_account-Keeps d (b ∷ rest) a e = ap value_of e

  account_from-Keeps :
      (srv : Server) (out : TossClient F × Answer Json) → Keeps (account_from parse_float srv out)
  account_from-Keeps srv (d, ok body) = first_account-Keeps d (srv.account_seqs body)
  account_from-Keeps srv (d, api x) = λ a e. cc
  account_from-Keeps srv (d, network) = λ a e. cc

  -- The number is known, or the broker is asked for it.
  ensure_account_cases :
      (srv : Server) (now : ℕ) (c : TossClient F)
      → ((a : ℕ) × (ensure_account_seq parse_float srv now c ≡ (c, ok a))
          × (c.account_seq ≡ some a))
        ⊎ (ensure_account_seq parse_float srv now c
            ≡ account_from parse_float srv
                (make_request parse_float srv "GET" "/api/v1/accounts" none now c))
  unfolding ensure_account_seq
  ensure_account_cases srv now c = go c.account_seq refl
    where
      go :
          (o : Option ℕ)
          → c.account_seq ≡ o
          → ((a : ℕ) × (ensure_account_seq parse_float srv now c ≡ (c, ok a))
              × (c.account_seq ≡ some a))
            ⊎ (ensure_account_seq parse_float srv now c
                ≡ account_from parse_float srv
                    (make_request parse_float srv "GET" "/api/v1/accounts" none now c))
      go (some a) e = inl (a, rw e refl, e)
      go none e = inr (rw e refl)

  ensure_account_seq-IsRequested :
      (srv : Server) (now : ℕ) (c : TossClient F)
      → IsRequested c
          (suc c.config.max_retries + suc c.config.max_retries)
          2
          (ensure_account_seq parse_float srv now c)
  ensure_account_seq-IsRequested srv now c = elim (ensure_account_cases srv now c) [
    | inl (a, e, k) ↦ rw e (record {
      spent = Spent-widen {n = 0} (omega arith) (omega arith) (Spent-none c);
      renewed = λ u. cc;
    })
    | inr e ↦ rw e (
        account_from-IsRequested srv c _ 2 _
          (make_request-IsRequested parse_float srv "GET" "/api/v1/accounts" none now c))
  ]

  ensure_account_seq-Keeps :
      (srv : Server) (now : ℕ) (c : TossClient F) → Keeps (ensure_account_seq parse_float srv now c)
  ensure_account_seq-Keeps srv now c = elim (ensure_account_cases srv now c) [
    | inl (b, e, k) ↦ rw e (λ a u. k ∙ ap value_of u)
    | inr e ↦
        rw e (
          account_from-Keeps srv (make_request parse_float srv "GET" "/api/v1/accounts" none now c))
  ]

  headed_with-IsRequested :
      (srv : Server) (method path : String) (now n k : ℕ) (t : String) (c : TossClient F)
      (out : TossClient F × Answer ℕ)
      → IsRequested c n k out
      → Keeps out
      → IsRequested c (n + (suc c.config.max_retries + suc c.config.max_retries)) (k + 1) (
          headed_with parse_float srv method path false t out
            (second_account_try parse_float srv method path now))
  headed_with-IsRequested srv method path now n k t c (d, ok a) h found =
      let g : d.config ≡ c.config = h.spent.same_config in
      let e : d.account_seq ≡ some a = found a refl in
      subst
        (λ out.
          IsRequested c (n + (suc c.config.max_retries + suc c.config.max_retries)) (k + 1) out)
        (sym (
          sent_with_again parse_float srv method path a (d, ok t)
            (second_account_try parse_float srv method path now)
            (second_try parse_float srv method path (some a) now) e
            (second_try_known parse_float srv method path now a)))
        (subst
          (λ i. IsRequested c (n + (suc i.max_retries + suc i.max_retries)) (k + 1) (
            sent_with parse_float srv method path (some a) false (d, ok t)
              (second_try parse_float srv method path (some a) now)))
          g
          (IsRequested-after h.spent
            (sent_ok-IsRequested parse_float srv method path (some a) now d t)))
  headed_with-IsRequested srv method path now n k t c (d, api x) h found =
      IsRequested-widen (omega arith) (omega arith)
        (record { spent = h.spent; renewed = h.renewed })
  headed_with-IsRequested srv method path now n k t c (d, network) h found =
      IsRequested-widen (omega arith) (omega arith)
        (record { spent = h.spent; renewed = h.renewed })

  -- With a token at hand.
  headed_ok-IsRequested :
      (srv : Server) (method path : String) (now : ℕ) (c : TossClient F) (t : String)
      → IsRequested c
          ((suc c.config.max_retries + suc c.config.max_retries)
            + (suc c.config.max_retries + suc c.config.max_retries))
          3
          (account_sent_with parse_float srv method path false now
            (c, ok t)
            (second_account_try parse_float srv method path now))
  headed_ok-IsRequested srv method path now c t =
      headed_with-IsRequested srv method path now
        (suc c.config.max_retries + suc c.config.max_retries) 2 t c
        (ensure_account_seq parse_float srv now c) (ensure_account_seq-IsRequested srv now c)
        (ensure_account_seq-Keeps srv now c)

  account_sent_with-Spent :
      (srv : Server) (method path : String) (now : ℕ) (out : TossClient F × Answer String)
      → Spent
          ((suc (out.0).config.max_retries + suc (out.0).config.max_retries)
            + (suc (out.0).config.max_retries + suc (out.0).config.max_retries))
          3
          out.0
          (account_sent_with parse_float srv method path false now out
            (second_account_try parse_float srv method path now)).0
  account_sent_with-Spent srv method path now (c, ok t) =
      (headed_ok-IsRequested srv method path now c t).spent
  account_sent_with-Spent srv method path now (c, api e) =
      Spent-widen {n = 0} (omega arith) (omega arith) (Spent-none c)
  account_sent_with-Spent srv method path now (c, network) =
      Spent-widen {n = 0} (omega arith) (omega arith) (Spent-none c)

  fetched-IsRequested :
      (srv : Server) (method path : String) (now : ℕ) (c : TossClient F)
      (out : TossClient F × Answer String)
      → Asked c out.0
      → IsRequested c
          ((suc c.config.max_retries + suc c.config.max_retries)
            + (suc c.config.max_retries + suc c.config.max_retries))
          4
          (account_sent_with parse_float srv method path false now out
            (second_account_try parse_float srv method path now))
  fetched-IsRequested srv method path now c out asked =
      let g : (out.0).config.max_retries ≡ c.config.max_retries =
        ap (λ x. x.max_retries) asked.same_config in
      let h = account_sent_with-Spent srv method path now out in
      record {
        spent = Spent-widen (omega arith) (omega arith) (Spent-trans (Asked-Spent asked) h);
        renewed = λ u. let a = asked.one_fetch in let b = h.kept_fetches in omega arith;
      }

  -- A request on behalf of the account, with the lookup of its number, costs at most four
  -- rounds of calls, each one more than the retries, and at most four requests for a token,
  -- keeps the configuration, and ends in an error 401 only after it asked for a new token.
  pub account_request-IsRequested :
      (srv : Server) (method path : String) (now : ℕ) (c : TossClient F)
      → IsRequested c
          ((suc c.config.max_retries + suc c.config.max_retries)
            + (suc c.config.max_retries + suc c.config.max_retries))
          4
          (account_request parse_float srv method path now c)
  unfolding account_request
  account_request-IsRequested srv method path now c = elim (ensure_token_cases srv c now) [
    | inl (e, v) ↦ rw e (
        IsRequested-widen (omega arith) (omega arith)
          (headed_ok-IsRequested srv method path now c (text_or_empty c.token)))
    | inr e ↦ rw e (
        fetched-IsRequested srv method path now c (fetch_token srv c now)
          (fetch_token-Asked srv c now))
  ]
