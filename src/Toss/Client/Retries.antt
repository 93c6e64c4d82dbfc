-- ===== src/Toss/Client/Retries.antt =====
-- How often a request is sent, and when it gets an answer.
use Prim.Native.Nat.{◌+◌}
use auto_trade_stock_demo.Prelude.{
  eqb, ℕ, zero, suc, ◌≤◌, ◌<◌, String, Bool, true, false, Option, ◌≡◌, refl, arith, Bool-cases, inl,
  inr, not, ◌∙◌,
}
use mathlib.Core.Path.{subst}
use native.Mathlib.Decide.{ℕ_discrete}
use auto_trade_stock_demo.Numeric.{Numeric}
use auto_trade_stock_demo.Toss.Client.{
  Server, HttpRequest, HttpResponse, Reply, answered, transport_error, TossClient, Answer, ok, api,
  network, is_retryable, last_reply, next_reply, send_rounds, send_with_retry,
}

-- The answer is one that is tried again where there are retries left.
abbrev pub is_unsettled : Answer HttpResponse → Bool
is_unsettled (ok r) = is_retryable r.status
is_unsettled (api e) = false
is_unsettled network = true

-- The reply is a response that is not tried again.
abbrev pub settles : Reply → Bool
settles (answered r) = not (is_retryable r.status)
settles transport_error = false

-- The answer is an error of status 401.
abbrev pub is_unauthorized : {A : Type 0} → Answer A → Bool
is_unauthorized (ok a) = false
is_unauthorized (api e) = eqb e.status 401
is_unauthorized network = false

-- The answer is an error of the broker's.
abbrev pub is_refusal : {A : Type 0} → Answer A → Bool
is_refusal (ok a) = false
is_refusal (api e) = true
is_refusal network = false

pub refusal_of_unauthorized :
    {A : Type 0} (a : Answer A) → is_refusal a ≡ false → is_unauthorized a ≡ false
refusal_of_unauthorized (ok a) h = refl
refusal_of_unauthorized (api e) h = cc
refusal_of_unauthorized network h = refl

-- At least one call and at most one more than the retries; all of them, if the answer is not
-- settled. The token, the account and the configuration stay, and the answer is no error of the broker's.
pub record IsSent {F : Type 0} (c : TossClient F) (retries : ℕ)
    (out : TossClient F × Answer HttpResponse) : Type 0 where
  pub some_call : c.calls < (out.0).calls
  pub few_calls : (out.0).calls ≤ c.calls + suc retries
  pub all_calls : is_unsettled out.1 ≡ true → (out.0).calls ≡ c.calls + suc retries
  pub same_config : (out.0).config ≡ c.config
  pub same_fetches : (out.0).fetches ≡ c.fetches
  pub same_token : (out.0).token ≡ c.token
  pub same_account : (out.0).account_seq ≡ c.account_seq
  pub no_refusal : is_refusal out.1 ≡ false

-- After a call, fewer retries are left.
called-IsSent :
    {F : Type 0} (c d : TossClient F) (left : ℕ) (out : TossClient F × Answer HttpResponse)
    → d.calls ≡ suc c.calls
    → d.config ≡ c.config
    → d.fetches ≡ c.fetches
    → d.token ≡ c.token
    → d.account_seq ≡ c.account_seq
    → IsSent d left out
    → IsSent c (suc left) out
called-IsSent c d left out n g f t b i = record {
  some_call = let h = i.some_call in omega arith;
  few_calls = let h = i.few_calls in omega arith;
  all_calls = λ u. let h = i.all_calls u in omega arith;
  same_config = i.same_config ∙ g;
  same_fetches = i.same_fetches ∙ f;
  same_token = i.same_token ∙ t;
  same_account = i.same_account ∙ b;
  no_refusal = i.no_refusal;
}

-- The answer is a response that is not tried again.
abbrev pub IsSettled : {F : Type 0} → TossClient F × Answer HttpResponse → Type 0
IsSettled out = (r : HttpResponse) × (out.1 ≡ ok r) × (is_retryable r.status ≡ false)

module _ {F : Type 0} ⦃m : Numeric F⦄ (parse_float : String → Option F) where
  last_reply-IsSent : (c : TossClient F) (rep : Reply) → IsSent c 0 (last_reply parse_float c rep)
  last_reply-IsSent c (answered r) = record {
    some_call = omega arith;
    few_calls = omega arith;
    all_calls = λ u. omega arith;
    same_config = refl;
    same_fetches = refl;
    same_token = refl;
    same_account = refl;
    no_refusal = refl;
  }
  last_reply-IsSent c transport_error = record {
    some_call = omega arith;
    few_calls = omega arith;
    all_calls = λ u. omega arith;
    same_config = refl;
    same_fetches = refl;
    same_token = refl;
    same_account = refl;
    no_refusal = refl;
  }

  settled-IsSent :
      (c : TossClient F) (left : ℕ) (r : HttpResponse)
      → is_retryable r.status ≡ false
      → IsSent c left (last_reply parse_float c (answered r))
  settled-IsSent c left r e = record {
    some_call = omega arith;
    few_calls = omega arith;
    all_calls = λ u. cc;
    same_config = refl;
    same_fetches = refl;
    same_token = refl;
    same_account = refl;
    no_refusal = refl;
  }

  next_reply-IsSent :
      (c : TossClient F) (left attempt : ℕ) (rep : Reply)
      (again : TossClient F → TossClient F × Answer HttpResponse)
      → ((d : TossClient F) → IsSent d left (again d))
      → IsSent c (suc left) (next_reply parse_float c attempt rep again)
  unfolding next_reply
  next_reply-IsSent c left attempt (answered r) again h =
      elim (Bool-cases (is_retryable r.status)) [
        | inl e ↦ rw e (called-IsSent c _ left _ refl refl refl refl refl (h _))
        | inr e ↦ rw e (settled-IsSent c (suc left) r e)
      ]
  next_reply-IsSent c left attempt transport_error again h =
      called-IsSent c _ left _ refl refl refl refl refl (h _)

  send_rounds-IsSent :
      (srv : Server) (q : HttpRequest) (left attempt : ℕ) (c : TossClient F)
      → IsSent c left (send_rounds parse_float srv q left attempt c)
  unfolding send_rounds
  send_rounds-IsSent srv q zero attempt c = last_reply-IsSent c (srv.reply c.calls q)
  send_rounds-IsSent srv q (suc left) attempt c =
      next_reply-IsSent c left attempt (srv.reply c.calls q)
        (send_rounds parse_float srv q left (suc attempt))
        (send_rounds-IsSent srv q left (suc attempt))

  next_reply-IsSettled :
      (c : TossClient F) (attempt : ℕ) (rep : Reply)
      (again : TossClient F → TossClient F × Answer HttpResponse)
      → settles rep ≡ true
      → IsSettled (next_reply parse_float c attempt rep again)
  unfolding next_reply
  next_reply-IsSettled c attempt (answered r) again s =
      let e : is_retryable r.status ≡ false = ground arith in rw e (r, refl, e)
  next_reply-IsSettled c attempt transport_error again s = cc

  slept-IsSettled :
      (c : TossClient F) (attempt : ℕ) (rep : Reply)
      (again : TossClient F → TossClient F × Answer HttpResponse)
      → ((d : TossClient F) → d.calls ≡ suc c.calls → IsSettled (again d))
      → IsSettled (next_reply parse_float c attempt rep again)
  unfolding next_reply
  slept-IsSettled c attempt (answered r) again h = elim (Bool-cases (is_retryable r.status)) [
    | inl e ↦ rw e (h _ refl)
    | inr e ↦ rw e (r, refl, e)
  ]
  slept-IsSettled c attempt transport_error again h = h _ refl

  last_reply-IsSettled :
      (c : TossClient F) (rep : Reply)
      → settles rep ≡ true
      → IsSettled (last_reply parse_float c rep)
  last_reply-IsSettled c (answered r) s = (r, refl, ground arith)
  last_reply-IsSettled c transport_error s = cc

  send_rounds-IsSettled :
      (srv : Server) (q : HttpRequest) (left attempt n : ℕ) (c : TossClient F)
      → c.calls ≤ n
      → n ≤ c.calls + left
      → settles (srv.reply n q) ≡ true
      → IsSettled (send_rounds parse_float srv q left attempt c)
  unfolding send_rounds
  send_rounds-IsSettled srv q zero attempt n c l h s =
      last_reply-IsSettled c (srv.reply c.calls q)
        (subst (λ i. settles (srv.reply i q) ≡ true) (let e : n ≡ c.calls = omega arith in e) s)
  send_rounds-IsSettled srv q (suc left) attempt n c l h s = elim (ℕ_discrete n c.calls) [
    | yes e ↦
        next_reply-IsSettled c attempt (srv.reply c.calls q)
          (send_rounds parse_float srv q left (suc attempt))
          (subst (λ i. settles (srv.reply i q) ≡ true) e s)
    | no ne ↦
        slept-IsSettled c attempt (srv.reply c.calls q)
          (send_rounds parse_float srv q left (suc attempt))
          (λ d e. send_rounds-IsSettled srv q left (suc attempt) n d (omega arith) (omega arith) s)
  ]

  -- If the server answers one of the calls that the retries allow with a status that is not
  -- tried again, the request ends in a response whose status is not tried again.
  pub send_with_retry-IsSettled :
      (srv : Server) (q : HttpRequest) (n : ℕ) (c : TossClient F)
      → c.calls ≤ n
      → n ≤ c.calls + c.config.max_retries
      → settles (srv.reply n q) ≡ true
      → IsSettled (send_with_retry parse_float srv q c)
  unfolding send_with_retry
  send_with_retry-IsSettled srv q n c l h s =
      send_rounds-IsSettled srv q c.config.max_retries 0 n c l h s

  -- A request is sent at least once and at most once more than the retries, and exactly that
  -- often if it ends in a status that is tried again or in an error of the network; the token,
  -- the account, the configuration and the number of tokens asked for stay, and it ends in no
  -- TossAPIError, whatever the status.
  pub send_with_retry-IsSent :
      (srv : Server) (q : HttpRequest) (c : TossClient F)
      → IsSent c c.config.max_retries (send_with_retry parse_float srv q c)
  unfolding send_with_retry
  send_with_retry-IsSent srv q c = send_rounds-IsSent srv q c.config.max_retries 0 c
