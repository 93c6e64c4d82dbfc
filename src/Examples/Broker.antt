-- ===== src/Examples/Broker.antt =====
-- The theorems on the client of the broker at concrete servers.
use Prim.Native.Nat.{◌*◌ as nat_mul}
use auto_trade_stock_demo.Prelude.{
  ℕ, String, true, Option, none, some, [], ◌∷◌, refl, arith, ◌==◌, eqb, if◌then◌else◌,
}
use auto_trade_stock_demo.Numeric.{dec}
use auto_trade_stock_demo.Toss.Client.{
  HttpRequest, HttpResponse, Reply, answered, transport_error, granted, Server, TossClient,
  send_with_retry, make_request, account_request, is_retryable,
}
use auto_trade_stock_demo.Toss.Client.Bodies.{Json}
use auto_trade_stock_demo.Toss.Client.Retries.{
  IsSent, IsSettled, send_with_retry-IsSent, send_with_retry-IsSettled,
}
use auto_trade_stock_demo.Toss.Client.Lookups.{account_request-IsRequested}
use auto_trade_stock_demo.Toss.Client.Requests.{IsRequested, make_request-IsRequested}
use auto_trade_stock_demo.Examples.Fixed.{Fixed, fixed_numeric}

abbrev response : ℕ → Option String → HttpResponse
response status retry_after = record {
  status = status;
  retry_after = retry_after;
  body = Json.other true;
}

abbrev read_seconds : String → Option Fixed
read_seconds t = if t == "3" then some (dec 3) else none

-- First a rate limit, then no connection, then a reply.
abbrev faltering_reply : ℕ → HttpRequest → Reply
faltering_reply n q =
    if eqb n 0
    then answered (response 429 (some "3"))
    else if eqb n 1
    then transport_error
    else answered (response 200 none)

abbrev faltering_server : Server
faltering_server = record {
  reply = faltering_reply;
  grant = λ n. granted "new" (nat_mul 3600 1000000);
  account_seqs = λ body. [];
}

-- It knows the token "new" alone.
abbrev renewing_server : Server
renewing_server = record {
  reply = λ n q.
      if q.token == "new" then answered (response 200 none) else answered (response 401 none);
  grant = λ n. granted "new" (nat_mul 3600 1000000);
  account_seqs = λ body. 7 ∷ [];
}

-- A client with a token that the broker knows no more.
abbrev stale_client : TossClient Fixed
stale_client = record {
  config = record { account_seq = some 1; max_retries = 2 };
  token = some "old";
  token_exp = nat_mul 7200 1000000;
  account_seq = some 1;
  calls = 0;
  fetches = 1;
  sleeps = [];
}

-- The same without the number of its account.
abbrev anonymous_client : TossClient Fixed
anonymous_client = record stale_client { account_seq = none }

abbrev holdings_request : HttpRequest
holdings_request = record {
  method = "GET";
  path = "/api/v1/holdings";
  token = "old";
  account = some 1;
}

send_with_retry-IsSent_example :
    IsSent stale_client 2
      (send_with_retry read_seconds faltering_server holdings_request stale_client)
send_with_retry-IsSent_example =
    send_with_retry-IsSent read_seconds faltering_server holdings_request stale_client

send_with_retry-IsSettled_example :
    IsSettled (send_with_retry read_seconds faltering_server holdings_request stale_client)
unfolding is_retryable
send_with_retry-IsSettled_example =
    send_with_retry-IsSettled read_seconds faltering_server holdings_request 2 stale_client
      (omega arith) (omega arith) refl

make_request-IsRequested_example :
    IsRequested stale_client 6 2
      (make_request read_seconds renewing_server "GET" "/api/v1/holdings" (some 1) 0 stale_client)
make_request-IsRequested_example =
    make_request-IsRequested read_seconds renewing_server "GET" "/api/v1/holdings" (some 1) 0
      stale_client

account_request-IsRequested_example :
    IsRequested anonymous_client 12 4
      (account_request read_seconds renewing_server "GET" "/api/v1/holdings" 0 anonymous_client)
account_request-IsRequested_example =
    account_request-IsRequested read_seconds renewing_server "GET" "/api/v1/holdings" 0
      anonymous_client
