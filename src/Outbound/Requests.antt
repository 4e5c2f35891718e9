-- ===== src/Outbound/Requests.antt =====
-- src/shared/httpclient/index.ts: the tests of a client's configuration and of a request, and what is sent.
use modular_hx_fastapi.Common.{
  Bool, List, Num, Option, String, Text, [], above, any, below, codes, false, if◌then◌else◌,
  is_integer, leb, length, none, not, one_of, same, some, true, ℕ, ◌&&◌, ◌++◌, ◌==◌, ◌is◌, ◌||◌,
  ◌∷◌,
}
use modular_hx_fastapi.Errors.{
  Failure, Kind, Result, canceled, err, invalid, ok, rate_limited, refuse_if, typed_failure,
  unavailable, ◌>>=◌, ◌>>◌,
}

abbrev pub client_failure : Kind → String → Failure
client_failure kind type = typed_failure kind "outbound HTTP operation failed" type

-- The parts of a parsed origin that are tested.
pub record Origin : Type 0 where
  pub protocol : Text
  pub username : Text
  pub password : Text
  pub search : Text
  pub hash : Text
  pub pathname : Text

pub record ClientConfig : Type 0 where
  pub timeout_ms : Num
  pub max_request : Num
  pub max_response : Num
  pub bearer : Option Text

abbrev is_empty : Text → Bool
is_empty [] = true
is_empty (c ∷ s) = false

abbrev is_break : ℕ → Bool
is_break c = c == 13 || c == 10

abbrev pub text_or_empty : Option Text → Text
text_or_empty none = []
text_or_empty (some t) = t

abbrev outside : Num → ℕ → Bool
outside n high = not (is_integer n) || below n 1 || above n high

-- `Client.create`; `none` stands for an origin that does not parse.
unfoldable pub check_client : Option Origin → ClientConfig → Result (Unit {0}) Failure
check_client none c = err (client_failure invalid "httpclient.config")
check_client (some u) c =
    refuse_if
      (not (one_of u.protocol ("http:" ∷ "https:" ∷ []))
        || not (is_empty u.username)
        || not (is_empty u.password)
        || not (is_empty u.search)
        || not (is_empty u.hash)
        || not (u.pathname is "/")
        || outside c.timeout_ms 30000
        || outside c.max_request 1048576
        || outside c.max_response 1048576
        || any is_break (text_or_empty c.bearer))
      (client_failure invalid "httpclient.config")

-- The parts of a trace reference that are sent.
pub record Trace : Type 0 where
  pub trace_id : Text
  pub span_id : Text
  pub sampled : Bool

-- A request; a trace is missing, is refused by the telemetry, or has these parts.
pub record ClientRequest : Type 0 where
  pub method : Text
  pub path : Text
  pub body : Text
  pub trace : Option (Option Trace)

-- What a client has fixed: its limits, its origin and its bearer, and how a path is resolved.
pub record Base : Type 0 where
  pub max_request : ℕ
  pub max_response : ℕ
  pub origin : Text
  pub bearer : Option Text
  pub origin_of : Text → Option Text

pub record Outgoing : Type 0 where
  pub method : Text
  pub path : Text
  pub authorization : Option Text
  pub traceparent : Option Text
  pub content_length : ℕ
  pub body : Text

abbrev methods : List String
methods = "GET" ∷ "HEAD" ∷ "POST" ∷ "PUT" ∷ "PATCH" ∷ "DELETE" ∷ "OPTIONS" ∷ []

-- The path starts with one slash.
abbrev starts_once : Text → Bool
starts_once [] = false
starts_once (c ∷ []) = c == b'/'
starts_once (c ∷ d ∷ s) = c == b'/' && not (d == b'/')

-- `/[\\\r\n#]/`.
abbrev is_barred : ℕ → Bool
is_barred c = c == 92 || c == 13 || c == 10 || c == b'#'

unfoldable pub valid_request : Base → ClientRequest → Bool
valid_request b r =
    one_of r.method methods
    && starts_once r.path
    && not (any is_barred r.path)
    && leb (length r.body) b.max_request

abbrev same_origin : Text → Option Text → Bool
same_origin origin none = false
same_origin origin (some o) = same o origin

-- `if (bearer?.reveal()) headers.authorization = 'Bearer ' + ...`.
abbrev authorization_of : Option Text → Option Text
authorization_of none = none
authorization_of (some t) = if is_empty t then none else some (codes "Bearer " ++ t)

abbrev flag_of : Bool → Text
flag_of true = codes "01"
flag_of false = codes "00"

abbrev traceparent_of : Trace → Text
traceparent_of t =
    codes "00-" ++ (t.trace_id ++ (codes "-" ++ (t.span_id ++ (codes "-" ++ flag_of t.sampled))))

unfoldable pub traced : Option (Option Trace) → Result (Option Text) Failure
traced none = ok none
traced (some none) = err (client_failure invalid "httpclient.trace")
traced (some (some t)) = ok (some (traceparent_of t))

-- `Client.do` up to the request, with the number of requests that are active.
unfoldable pub prepare : Base → Bool → ℕ → Bool → ClientRequest → Result Outgoing Failure
prepare b closed active aborted r = do
  refuse_if closed (client_failure unavailable "httpclient.closed")
  refuse_if (leb 64 active) (client_failure rate_limited "httpclient.busy")
  refuse_if aborted (client_failure canceled "httpclient.canceled")
  refuse_if (not (valid_request b r)) (client_failure invalid "httpclient.request")
  refuse_if (not (same_origin b.origin (b.origin_of r.path)))
      (client_failure invalid "httpclient.request")
  parent ← traced r.trace
  ok (record {
    method = r.method;
    path = r.path;
    authorization = authorization_of b.bearer;
    traceparent = parent;
    content_length = length r.body;
    body = r.body;
  })
