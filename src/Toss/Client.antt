-- ===== src/Toss/Client.antt =====
-- The client of the broker (server/app/toss/client.py): the token, the retries and the errors. The
-- HTTP library is an interface: what the server answers to a request may depend on the number of
-- requests before it. Times are in microseconds; `float` reads a text, or raises.
pub mod Bodies
pub mod Retries
pub mod Costs
pub mod Requests
pub mod Accounts
pub mod Lookups
use Prim.Native.Nat.{◌+◌, ◌*◌ as nat_mul, ◌^◌ as nat_pow}
use auto_trade_stock_demo.Prelude.{
  ℕ, zero, suc, String, Bool, true, false, not, ◌||◌, ◌&&◌, Option, none, some, List, [], ◌∷◌, ◌++◌,
  ltb, leb, eqb, ◌==◌, if◌then◌else◌,
}
use auto_trade_stock_demo.Numeric.{Numeric, ◌*◌, min, dec, lit}
use Bodies.{Json, ApiError, parse_error, unwrap, api_error}

pub record TossConfig : Type 0 where
  pub account_seq : Option ℕ
  pub max_retries : ℕ

pub record HttpRequest : Type 0 where
  pub method : String
  pub path : String
  pub token : String
  pub account : Option ℕ

pub record HttpResponse : Type 0 where
  pub status : ℕ
  pub retry_after : Option String
  pub body : Json

-- A response, or a network error or timeout.
pub data Reply : Type 0 where
  answered : HttpResponse → Reply
  transport_error : Reply

-- The token endpoint grants a token for a number of microseconds, or answers otherwise, or there is
-- a network error, which is not tried again.
pub data TokenReply : Type 0 where
  granted : String → ℕ → TokenReply
  denied : ℕ → Json → TokenReply
  unreachable : TokenReply

pub record Server : Type 0 where
  pub reply : ℕ → HttpRequest → Reply
  pub grant : ℕ → TokenReply
  pub account_seqs : Json → List ℕ

-- The client, with the numbers of its requests and of those for a token, and its waits.
pub record TossClient (F : Type 0) : Type 0 where
  pub config : TossConfig
  pub token : Option String
  pub token_exp : ℕ
  pub account_seq : Option ℕ
  pub calls : ℕ
  pub fetches : ℕ
  pub sleeps : List F

-- What a call ends in: a value, a TossAPIError, or the error of the network.
pub data Answer (A : Type 0) : Type 0 where
  ok : A → Answer A
  api : ApiError → Answer A
  network : Answer A

-- `TOKEN_REFRESH_MARGIN_S`
abbrev pub token_refresh_margin : ℕ
token_refresh_margin = nat_mul 120 1000000

-- `RETRYABLE_STATUS`
unfoldable pub is_retryable : ℕ → Bool
is_retryable s = eqb s 429 || (eqb s 500 || (eqb s 502 || (eqb s 503 || eqb s 504)))

abbrev has_token : Option String → Bool
has_token none = false
has_token (some t) = not (t == "")

abbrev pub text_or_empty : Option String → String
text_or_empty none = ""
text_or_empty (some t) = t

module _ {F : Type 0} where
  unfoldable pub token_valid : TossClient F → ℕ → Bool
  token_valid c now = has_token c.token && ltb (now + token_refresh_margin) c.token_exp

  abbrev pub with_token : TossClient F → ℕ → TokenReply → TossClient F × Answer String
  with_token c now (granted t span) =
      (record c { token = some t; token_exp = now + span; fetches = suc c.fetches }, ok t)
  with_token c now (denied status body) =
      (record c { fetches = suc c.fetches }, api (parse_error status body))
  with_token c now unreachable = (record c { fetches = suc c.fetches }, network)

  -- `_fetch_token`
  unfoldable pub fetch_token : Server → TossClient F → ℕ → TossClient F × Answer String
  fetch_token srv c now = with_token c now (srv.grant c.fetches)

  -- `_ensure_token`, of a client that one task uses.
  unfoldable pub ensure_token : Server → TossClient F → ℕ → TossClient F × Answer String
  unfolding token_valid fetch_token
  ensure_token srv c now =
      if token_valid c now then (c, ok (text_or_empty c.token)) else fetch_token srv c now

module _ {F : Type 0} ⦃m : Numeric F⦄ (parse_float : String → Option F) where
  -- `MAX_RETRY_AFTER_S`
  abbrev pub max_retry_after : F
  max_retry_after = dec 10

  abbrev pub backoff : ℕ → ℕ → F
  backoff status attempt = (if eqb status 429 then lit 5 1 else lit 2 1) * dec (nat_pow 2 attempt)

  abbrev pub delay_of : ℕ → ℕ → Option F → F
  delay_of status attempt none = backoff status attempt
  delay_of status attempt (some t) = min t max_retry_after

  abbrev pub parsed : Option String → Option F
  parsed none = none
  parsed (some t) = if t == "" then none else parse_float t

  -- `_retry_delay`, in seconds.
  unfoldable pub retry_delay : HttpResponse → ℕ → F
  retry_delay r attempt = delay_of r.status attempt (parsed r.retry_after)

  abbrev pub called : TossClient F → TossClient F
  called c = record c { calls = suc c.calls }

  abbrev pub slept : TossClient F → F → TossClient F
  slept c t = record c { calls = suc c.calls; sleeps = c.sleeps ++ t ∷ [] }

  -- The last round takes the reply as it is.
  abbrev pub last_reply : TossClient F → Reply → TossClient F × Answer HttpResponse
  last_reply c (answered r) = (called c, ok r)
  last_reply c transport_error = (called c, network)

  -- A round before it waits and goes on with `again`, if the reply is to be tried again.
  unfoldable pub next_reply :
      TossClient F
      → ℕ
      → Reply
      → (TossClient F → TossClient F × Answer HttpResponse)
      → TossClient F × Answer HttpResponse
  unfolding is_retryable retry_delay
  next_reply c attempt (answered r) again =
      if is_retryable r.status then again (slept c (retry_delay r attempt)) else (called c, ok r)
  next_reply c attempt transport_error again = again (slept c (lit 3 1 * dec (nat_pow 2 attempt)))

  -- The rounds of `_send_with_retry`, with `left` retries left after this one.
  unfoldable pub send_rounds :
      Server → HttpRequest → ℕ → ℕ → TossClient F → TossClient F × Answer HttpResponse
  unfolding next_reply
  send_rounds srv q zero attempt c = last_reply c (srv.reply c.calls q)
  send_rounds srv q (suc left) attempt c =
      next_reply c attempt (srv.reply c.calls q) (send_rounds srv q left (suc attempt))

  -- `_send_with_retry`
  unfoldable pub send_with_retry :
      Server → HttpRequest → TossClient F → TossClient F × Answer HttpResponse
  unfolding send_rounds
  send_with_retry srv q c = send_rounds srv q c.config.max_retries 0 c

  abbrev pub finished : HttpResponse → Answer Json
  finished r = if leb 400 r.status then api (parse_error r.status r.body) else ok (unwrap r.body)

  -- What `_request` makes of the end of its sending: `again` is the second try, with no token.
  abbrev pub answer_of :
      Bool
      → TossClient F × Answer HttpResponse
      → (TossClient F → TossClient F × Answer Json)
      → TossClient F × Answer Json
  answer_of retried (c, ok r) again =
      if eqb r.status 401 && not retried then again (record c { token = none }) else (c, finished r)
  answer_of retried (c, api e) again = (c, api e)
  answer_of retried (c, network) again = (c, network)

  abbrev pub sent_with :
      Server
      → String
      → String
      → Option ℕ
      → Bool
      → TossClient F × Answer String
      → (TossClient F → TossClient F × Answer Json)
      → TossClient F × Answer Json
  sent_with srv method path account retried (c, ok t) again =
      answer_of retried
        (send_with_retry srv (record { method = method; path = path; token = t; account = account })
          c)
        again
  sent_with srv method path account retried (c, api e) again = (c, api e)
  sent_with srv method path account retried (c, network) again = (c, network)

  abbrev pub second_try :
      Server → String → String → Option ℕ → ℕ → TossClient F → TossClient F × Answer Json
  second_try srv method path account now c =
      sent_with srv method path account true (ensure_token srv c now) (λ d. (d, network))

  -- `_request` with this account header, or with none: a 401 is tried once more, with a new token.
  unfoldable pub make_request :
      Server → String → String → Option ℕ → ℕ → TossClient F → TossClient F × Answer Json
  unfolding ensure_token send_with_retry
  make_request srv method path account now c =
      sent_with srv method path account false (ensure_token srv c now)
        (second_try srv method path account now)

  abbrev pub first_account : TossClient F → List ℕ → TossClient F × Answer ℕ
  first_account c [] =
      (c, api (api_error 0 (some (Json.text "no-account")) (some (Json.text "조회 가능한 계좌가 없습니다"))))
  first_account c (a ∷ rest) = (record c { account_seq = some a }, ok a)

  abbrev pub account_from : Server → TossClient F × Answer Json → TossClient F × Answer ℕ
  account_from srv (c, ok body) = first_account c (srv.account_seqs body)
  account_from srv (c, api e) = (c, api e)
  account_from srv (c, network) = (c, network)

  -- `_ensure_account_seq`: the known one, or that of the first account.
  unfoldable pub ensure_account_seq : Server → ℕ → TossClient F → TossClient F × Answer ℕ
  unfolding make_request
  ensure_account_seq srv now c =
      let asked = account_from srv (make_request srv "GET" "/api/v1/accounts" none now c) in
      elim (c.account_seq) [ some a ↦ (c, ok a) | none ↦ asked ]

  -- With the number of the account in the header.
  abbrev pub headed_with :
      Server
      → String
      → String
      → Bool
      → String
      → TossClient F × Answer ℕ
      → (TossClient F → TossClient F × Answer Json)
      → TossClient F × Answer Json
  headed_with srv method path retried t (c, ok a) again =
      sent_with srv method path (some a) retried (c, ok t) again
  headed_with srv method path retried t (c, api e) again = (c, api e)
  headed_with srv method path retried t (c, network) again = (c, network)

  -- The number is looked up after the token.
  abbrev pub account_sent_with :
      Server
      → String
      → String
      → Bool
      → ℕ
      → TossClient F × Answer String
      → (TossClient F → TossClient F × Answer Json)
      → TossClient F × Answer Json
  account_sent_with srv method path retried now (c, ok t) again =
      headed_with srv method path retried t (ensure_account_seq srv now c) again
  account_sent_with srv method path retried now (c, api e) again = (c, api e)
  account_sent_with srv method path retried now (c, network) again = (c, network)

  abbrev pub second_account_try :
      Server → String → String → ℕ → TossClient F → TossClient F × Answer Json
  second_account_try srv method path now c =
      account_sent_with srv method path true now (ensure_token srv c now) (λ d. (d, network))

  -- `_request` on behalf of the account.
  unfoldable pub account_request :
      Server → String → String → ℕ → TossClient F → TossClient F × Answer Json
  unfolding ensure_token ensure_account_seq
  account_request srv method path now c =
      account_sent_with srv method path false now (ensure_token srv c now)
        (second_account_try srv method path now)
