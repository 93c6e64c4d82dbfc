-- ===== src/Toss/Client/Bodies.antt =====
-- The bodies of the broker's answers (server/app/toss/client.py): `_unwrap` and `_parse_error`.
use auto_trade_stock_demo.Prelude.{
  ℕ, String, Bool, true, false, not, Option, none, some, ◌==◌, if◌then◌else◌,
}

mutual
  -- A value of JSON; of numbers, truth values and lists only the truth is kept.
  pub data Json : Type 0 where
    null : Json
    other : Bool → Json
    text : String → Json
    object : Fields → Json

  pub data Fields : Type 0 where
    no_fields : Fields
    field : String → Json → Fields → Fields

-- `TossAPIError`
pub record ApiError : Type 0 where
  pub status : ℕ
  pub code : Option Json
  pub message : Option Json
  pub field_name : Option Json
  pub request_id : Option Json

abbrev pub api_error : ℕ → Option Json → Option Json → ApiError
api_error status code message = record {
  status = status;
  code = code;
  message = message;
  field_name = none;
  request_id = none;
}

-- `body.get(key)`
unfoldable pub get : String → Fields → Option Json
get k no_fields = none
get k (field j v rest) = let found = get k rest in if j == k then some v else found

-- `a or b`, for values that are falsy if they are null, empty texts or objects.
abbrev is_falsy : Json → Bool
is_falsy Json.null = true
is_falsy (Json.other b) = not b
is_falsy (Json.text t) = t == ""
is_falsy (Json.object no_fields) = true
is_falsy (Json.object (field j v rest)) = false

abbrev or_else : Option Json → Option Json → Option Json
or_else none b = b
or_else (some a) b = if is_falsy a then b else some a

-- `(value or {}).get(key)`, of a value that is an object or falsy.
abbrev get_in : String → Option Json → Option Json
get_in k (some (Json.object fs)) = get k fs
get_in k _ = none

abbrev pub error_of : ℕ → Fields → Option Json → ApiError
error_of status body (some (Json.object err)) = record {
  status = status;
  code = get "code" err;
  message = get "message" err;
  field_name = or_else (get "field" err) (get_in "field" (get "data" err));
  request_id = get "requestId" err;
}
error_of status body (some (Json.text err)) = record {
  status = status;
  code = some (Json.text err);
  message = get "error_description" body;
  field_name = none;
  request_id = none;
}
error_of status body _ = record {
  status = status;
  code = get "code" body;
  message = get "message" body;
  field_name = get "field" body;
  request_id = get "requestId" body;
}

-- `_parse_error(status, body)`
unfoldable pub parse_error : ℕ → Json → ApiError
unfolding get
parse_error status (Json.object body) = error_of status body (get "error" body)
parse_error status _ = api_error status none none

abbrev unwrapped : Fields → Option Json → Json
unwrapped body none = Json.object body
unwrapped body (some v) = v

-- `_unwrap(body)`
unfoldable pub unwrap : Json → Json
unfolding get
unwrap (Json.object body) = unwrapped body (get "result" body)
unwrap Json.null = Json.null
unwrap (Json.other b) = Json.other b
unwrap (Json.text t) = Json.text t
