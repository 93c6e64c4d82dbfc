-- ===== src/Toss/Client/Requests.antt =====
-- What a request of the client costs, and when it reports a 401 (`_request`).
use Prim.Native.Nat.{◌+◌}
use auto_trade_stock_demo.Prelude.{
  ℕ, suc, ◌<◌, String, Bool, true, false, Option, none, some, ◌≡◌, refl, ap, arith, ◌&&◌, eqb, leb,
  Bool-cases, inl, inr, if◌then◌else◌,
}
use mathlib.Core.Path.{subst}
use auto_trade_stock_demo.Numeric.{Numeric}
use auto_trade_stock_demo.Toss.Client.{
  Server, HttpRequest, HttpResponse, TossClient, Answer, ok, api, network, fetch_token,
  send_with_retry, finished, answer_of, text_or_empty, sent_with, second_try, make_request,
}
use auto_trade_stock_demo.Toss.Client.Bodies.{Fields, Json, unwrap, parse_error, error_of, get}
use auto_trade_stock_demo.Toss.Client.Retries.{
  refusal_of_unauthorized, is_unauthorized, send_with_retry-IsSent,
}
use auto_trade_stock_demo.Toss.Client.Costs.{
  Spent, Asked, Spent-trans, Asked-Spent, IsSent-Spent, Spent-widen, Spent-none, fetch_token-Asked,
  ensure_token_cases, ensure_token-none,
}

and_false : (b : Bool) → (b && false) ≡ false
and_false true = refl
and_false false = refl

and_true : (b : Bool) → (b && true) ≡ b
and_true true = refl
and_true false = refl

error_of-status : (n : ℕ) (body : Fields) (e : Option Json) → (error_of n body e).status ≡ n
error_of-status n body none = refl
error_of-status n body (some Json.null) = refl
error_of-status n body (some (Json.other b)) = refl
error_of-status n body (some (Json.text t)) = refl
error_of-status n body (some (Json.object fs)) = refl

parse_error-status : (n : ℕ) (body : Json) → (parse_error n body).status ≡ n
unfolding parse_error
parse_error-status n (Json.object body) = error_of-status n body (get "error" body)
parse_error-status n Json.null = refl
parse_error-status n (Json.other b) = refl
parse_error-status n (Json.text t) = refl

choice_unauthorized :
    (n : ℕ) (body v : Json) (b : Bool)
    → is_unauthorized (if b then api (parse_error n body) else ok v) ≡ true
    → eqb n 401 ≡ true
choice_unauthorized n body v true u = subst (λ i. eqb i 401 ≡ true) (parse_error-status n body) u
choice_unauthorized n body v false u = cc

Spent-forget :
    {F : Type 0} {n k : ℕ} {c d : TossClient F}
    → Spent n k c d
    → Spent n k c (record d { token = none })
Spent-forget p = record {
  few_calls = p.few_calls;
  few_fetches = p.few_fetches;
  kept_fetches = p.kept_fetches;
  same_config = p.same_config;
}

-- The bounds of a request, and a 401 only after a new token was asked for.
pub record IsRequested {F A : Type 0} (c : TossClient F) (n k : ℕ) (out : TossClient F × Answer A)
    : Type 0 where
  pub spent : Spent n k c out.0
  pub renewed : is_unauthorized out.1 ≡ true → c.fetches < (out.0).fetches

-- Later steps under bounds of their own.
pub IsRequested-after :
    {F A : Type 0} {n k i j : ℕ} {c d : TossClient F} {out : TossClient F × Answer A}
    → Spent n k c d
    → IsRequested d i j out
    → IsRequested c (n + i) (k + j) out
IsRequested-after p q = record {
  spent = Spent-trans p q.spent;
  renewed = λ u. let a = q.renewed u in let b = p.kept_fetches in omega arith;
}

module _ {F : Type 0} ⦃m : Numeric F⦄ (parse_float : String → Option F) where
  finish_unauthorized :
      (r : HttpResponse) → is_unauthorized (finished parse_float r) ≡ true → eqb r.status 401 ≡ true
  finish_unauthorized r = choice_unauthorized r.status r.body (unwrap r.body) (leb 400 r.status)

  -- The second try is the last one.
  answer_of-Spent :
      (c : TossClient F) (n : ℕ) (out : TossClient F × Answer HttpResponse)
      (again : TossClient F → TossClient F × Answer Json)
      → Spent n 0 c out.0
      → Spent n 0 c (answer_of parse_float true out again).0
  answer_of-Spent c n (d, ok r) again h = rw (and_false (eqb r.status 401)) h
  answer_of-Spent c n (d, api e) again h = h
  answer_of-Spent c n (d, network) again h = h

  sent_with-Spent :
      (srv : Server) (method path : String) (account : Option ℕ)
      (out : TossClient F × Answer String) (again : TossClient F → TossClient F × Answer Json)
      → Spent
          (suc (out.0).config.max_retries)
          0
          out.0
          (sent_with parse_float srv method path account true out again).0
  sent_with-Spent srv method path account (d, ok t) again =
      let q : HttpRequest = record { method = method; path = path; token = t; account = account } in
      answer_of-Spent d (suc d.config.max_retries) (send_with_retry parse_float srv q d) again (
        IsSent-Spent d d.config.max_retries (send_with_retry parse_float srv q d)
          (send_with_retry-IsSent parse_float srv q d))
  sent_with-Spent srv method path account (d, api e) again = Spent-none d
  sent_with-Spent srv method path account (d, network) again = Spent-none d

  Asked-IsRequested :
      (srv : Server) (method path : String) (account : Option ℕ) (c : TossClient F)
      (out : TossClient F × Answer String) (again : TossClient F → TossClient F × Answer Json)
      → Asked c out.0
      → IsRequested c
          (suc c.config.max_retries)
          1
          (sent_with parse_float srv method path account true out again)
  Asked-IsRequested srv method path account c out again asked =
      let g : (out.0).config.max_retries ≡ c.config.max_retries =
        ap (λ x. x.max_retries) asked.same_config in
      let h = sent_with-Spent srv method path account out again in
      record {
        spent = Spent-widen (omega arith) (omega arith) (Spent-trans (Asked-Spent asked) h);
        renewed = λ u. let a = asked.one_fetch in let b = h.kept_fetches in omega arith;
      }

  second_try-IsRequested :
      (srv : Server) (method path : String) (account : Option ℕ) (now : ℕ) (c : TossClient F)
      → c.token ≡ none
      → IsRequested c
          (suc c.config.max_retries)
          1
          (second_try parse_float srv method path account now c)
  second_try-IsRequested srv method path account now c e = rw (ensure_token-none srv c now e) (
      Asked-IsRequested srv method path account c (fetch_token srv c now) (λ d. (d, network))
        (fetch_token-Asked srv c now))

  answer_of-IsRequested :
      (c : TossClient F) (n : ℕ) (out : TossClient F × Answer HttpResponse)
      (again : TossClient F → TossClient F × Answer Json)
      → Spent n 0 c out.0
      → is_unauthorized out.1 ≡ false
      → ((d : TossClient F) → d.token ≡ none → d.config ≡ c.config → IsRequested d n 1 (again d))
      → IsRequested c (n + n) 1 (answer_of parse_float false out again)
  answer_of-IsRequested c n (d, ok r) again h u k =
      rw (and_true (eqb r.status 401)) (elim (Bool-cases (eqb r.status 401)) [
        | inl e ↦
            rw e (
              IsRequested-after (Spent-forget h) (k (record d { token = none }) refl h.same_config))
        | inr e ↦ rw e (record {
          spent = Spent-widen (omega arith) (omega arith) h;
          renewed = λ v. let w = finish_unauthorized r v in cc;
        })
      ])
  answer_of-IsRequested c n (d, api e) again h u k = record {
    spent = Spent-widen (omega arith) (omega arith) h;
    renewed = λ v. cc;
  }
  answer_of-IsRequested c n (d, network) again h u k = record {
    spent = Spent-widen (omega arith) (omega arith) h;
    renewed = λ v. cc;
  }

  pub sent_ok-IsRequested :
      (srv : Server) (method path : String) (account : Option ℕ) (now : ℕ) (c : TossClient F)
      (t : String)
      → IsRequested c (suc c.config.max_retries + suc c.config.max_retries) 1 (
          sent_with parse_float srv method path account false
            (c, ok t)
            (second_try parse_float srv method path account now))
  sent_ok-IsRequested srv method path account now c t =
      let q : HttpRequest = record { method = method; path = path; token = t; account = account } in
      let sent = send_with_retry-IsSent parse_float srv q c in
      answer_of-IsRequested c (suc c.config.max_retries) (send_with_retry parse_float srv q c)
        (second_try parse_float srv method path account now)
        (IsSent-Spent c c.config.max_retries (send_with_retry parse_float srv q c) sent)
        (refusal_of_unauthorized _ sent.no_refusal)
        (λ d e g.
          subst
            (λ i.
              IsRequested d (suc i.max_retries) 1
                (second_try parse_float srv method path account now d))
            g (second_try-IsRequested srv method path account now d e))

  sent_any-Spent :
      (srv : Server) (method path : String) (account : Option ℕ) (now : ℕ)
      (out : TossClient F × Answer String)
      → Spent
          (suc (out.0).config.max_retries + suc (out.0).config.max_retries)
          1
          out.0
          (sent_with parse_float srv method path account false out
            (second_try parse_float srv method path account now)).0
  sent_any-Spent srv method path account now (c, ok t) =
      (sent_ok-IsRequested srv method path account now c t).spent
  sent_any-Spent srv method path account now (c, api e) =
      Spent-widen {n = 0} (omega arith) (omega arith) (Spent-none c)
  sent_any-Spent srv method path account now (c, network) =
      Spent-widen {n = 0} (omega arith) (omega arith) (Spent-none c)

  with_token-IsRequested :
      (srv : Server) (method path : String) (account : Option ℕ) (now : ℕ) (c : TossClient F)
      (out : TossClient F × Answer String)
      → Asked c out.0
      → IsRequested c (suc c.config.max_retries + suc c.config.max_retries) 2 (
          sent_with parse_float srv method path account false out
            (second_try parse_float srv method path account now))
  with_token-IsRequested srv method path account now c out asked =
      let g : (out.0).config.max_retries ≡ c.config.max_retries =
        ap (λ x. x.max_retries) asked.same_config in
      let h = sent_any-Spent srv method path account now out in
      record {
        spent = Spent-widen (omega arith) (omega arith) (Spent-trans (Asked-Spent asked) h);
        renewed = λ u. let a = asked.one_fetch in let b = h.kept_fetches in omega arith;
      }

  -- A request with a given account header, or none, costs at most two rounds of calls, each
  -- one more than the retries, and at most two requests for a token, keeps the configuration,
  -- and ends in an error 401 only after it asked for a new token.
  pub make_request-IsRequested :
      (srv : Server) (method path : String) (account : Option ℕ) (now : ℕ) (c : TossClient F)
      → IsRequested c
          (suc c.config.max_retries + suc c.config.max_retries)
          2
          (make_request parse_float srv method path account now c)
  unfolding make_request
  make_request-IsRequested srv method path account now c = elim (ensure_token_cases srv c now) [
    | inl (e, v) ↦ rw e (
        let h = sent_ok-IsRequested srv method path account now c (text_or_empty c.token) in
        record { spent = Spent-widen (omega arith) (omega arith) h.spent; renewed = h.renewed })
    | inr e ↦ rw e (
        with_token-IsRequested srv method path account now c (fetch_token srv c now)
          (fetch_token-Asked srv c now))
  ]
