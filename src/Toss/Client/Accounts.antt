-- ===== src/Toss/Client/Accounts.antt =====
-- A request on behalf of an account whose number is known (`_request`, `_ensure_account_seq`).
use auto_trade_stock_demo.Prelude.{
  ℕ, String, Bool, true, false, not, ◌&&◌, eqb, Option, some, none, ◌≡◌, refl, ◌∙◌, Bool-cases, inl,
  inr,
}
use auto_trade_stock_demo.Numeric.{Numeric}
use auto_trade_stock_demo.Toss.Client.{
  Server, TokenReply, granted, denied, unreachable, HttpRequest, HttpResponse, TossClient, Answer,
  ok, api, network, token_valid, fetch_token, ensure_token, with_token, send_with_retry,
  ensure_account_seq, answer_of, sent_with, second_try, make_request, account_sent_with,
  second_account_try, account_request,
}
use auto_trade_stock_demo.Toss.Client.Bodies.{Json}
use auto_trade_stock_demo.Toss.Client.Retries.{send_with_retry-IsSent}

module _ {F : Type 0} where
  with_token_account :
      (c : TossClient F) (now : ℕ) (g : TokenReply)
      → ((with_token c now g).0).account_seq ≡ c.account_seq
  with_token_account c now (granted t span) = refl
  with_token_account c now (denied status body) = refl
  with_token_account c now unreachable = refl

  ensure_token_account :
      (srv : Server) (c : TossClient F) (now : ℕ)
      → ((ensure_token srv c now).0).account_seq ≡ c.account_seq
  unfolding ensure_token fetch_token
  ensure_token_account srv c now = elim (Bool-cases (token_valid c now)) [
    | inl e ↦ rw e refl
    | inr e ↦ rw e (with_token_account c now (srv.grant c.fetches))
  ]

module _ {F : Type 0} ⦃m : Numeric F⦄ (parse_float : String → Option F) where
  ensure_account_known :
      (srv : Server) (now : ℕ) (c : TossClient F) (a : ℕ)
      → c.account_seq ≡ some a
      → ensure_account_seq parse_float srv now c ≡ (c, ok a)
  unfolding ensure_account_seq
  ensure_account_known srv now c a e = rw e refl

  account_sent_known :
      (srv : Server) (method path : String) (retried : Bool) (now a : ℕ)
      (out : TossClient F × Answer String) (again : TossClient F → TossClient F × Answer Json)
      → (out.0).account_seq ≡ some a
      → account_sent_with parse_float srv method path retried now out again
        ≡ sent_with parse_float srv method path (some a) retried out again
  account_sent_known srv method path retried now a (c, ok t) again e =
      rw (ensure_account_known srv now c a e) refl
  account_sent_known srv method path retried now a (c, api x) again e = refl
  account_sent_known srv method path retried now a (c, network) again e = refl

  pub second_try_known :
      (srv : Server) (method path : String) (now a : ℕ) (c : TossClient F)
      → c.account_seq ≡ some a
      → second_account_try parse_float srv method path now c
        ≡ second_try parse_float srv method path (some a) now c
  second_try_known srv method path now a c e =
      account_sent_known srv method path true now a (ensure_token srv c now) (λ d. (d, network))
        (ensure_token_account srv c now ∙ e)

  answer_of_again :
      (a : ℕ) (out : TossClient F × Answer HttpResponse)
      (f g : TossClient F → TossClient F × Answer Json)
      → (out.0).account_seq ≡ some a
      → ((d : TossClient F) → d.account_seq ≡ some a → f d ≡ g d)
      → answer_of parse_float false out f ≡ answer_of parse_float false out g
  answer_of_again a (d, ok r) f g e h = elim (Bool-cases (eqb r.status 401 && not false)) [
    | inl u ↦ rw u (h (record d { token = none }) e)
    | inr u ↦ rw u refl
  ]
  answer_of_again a (d, api x) f g e h = refl
  answer_of_again a (d, network) f g e h = refl

  pub sent_with_again :
      (srv : Server) (method path : String) (a : ℕ) (out : TossClient F × Answer String)
      (f g : TossClient F → TossClient F × Answer Json)
      → (out.0).account_seq ≡ some a
      → ((d : TossClient F) → d.account_seq ≡ some a → f d ≡ g d)
      → sent_with parse_float srv method path (some a) false out f
        ≡ sent_with parse_float srv method path (some a) false out g
  sent_with_again srv method path a (c, ok t) f g e h =
      let q : HttpRequest = record { method = method; path = path; token = t; account = some a } in
      let sent = send_with_retry-IsSent parse_float srv q c in
      answer_of_again a (send_with_retry parse_float srv q c) f g (sent.same_account ∙ e) h
  sent_with_again srv method path a (c, api x) f g e h = refl
  sent_with_again srv method path a (c, network) f g e h = refl

  pub account_request-make_request :
      (srv : Server) (method path : String) (now a : ℕ) (c : TossClient F)
      → c.account_seq ≡ some a
      → account_request parse_float srv method path now c
        ≡ make_request parse_float srv method path (some a) now c
  unfolding account_request make_request
  account_request-make_request srv method path now a c e =
      let k = ensure_token_account srv c now ∙ e in
      account_sent_known srv method path false now a (ensure_token srv c now)
        (second_account_try parse_float srv method path now) k
      ∙ sent_with_again srv method path a (ensure_token srv c now)
          (second_account_try parse_float srv method path now)
          (second_try parse_float srv method path (some a) now) k
          (second_try_known srv method path now a)
