-- ===== src/Http/Policies.antt =====
-- src/shared/http/policy.ts and problem.ts, and the outcomes of src/shared/telemetry/index.ts. What may come
-- from outside the type system is a text.
use modular_hx_fastapi.Common.{
  Bool, Num, Option, String, Text, Value, [], above, below, codes, false, if◌then◌else◌, is_integer,
  none, not, one_of, some, string, string_of, true, ℕ, ◌&&◌, ◌++◌, ◌is◌, ◌||◌, ◌∷◌,
}
use modular_hx_fastapi.Errors.{
  Failure, Fields, Kind, PublicInfo, Result, Unknown, err, invalid, kind_name, ok, parse_kind,
  public_info, refuse_if, truthy, typed_failure, ◌>>◌,
}

pub data Outcome : Type 0 where
  success refused failed canceled timed_out : Outcome

pub record Facts : Type 0 where
  pub status : Option Num
  pub failure_kind : Option Text
  pub termination : Text

pub record Classification : Type 0 where
  pub outcome : Outcome
  pub span_error : Bool
  pub error_type : Option Text

unfoldable pub normalize_method : Text → Text
normalize_method value =
    if one_of value
      ("GET" ∷ "HEAD" ∷ "POST" ∷ "PUT" ∷ "DELETE" ∷ "CONNECT" ∷ "OPTIONS" ∷ "TRACE" ∷ "PATCH" ∷ [])
    then value
    else codes "_OTHER"

abbrev pub bad_status : Option Num → Bool
bad_status none = false
bad_status (some n) = not (is_integer n) || below n 200 || above n 599

abbrev has_kind : Option Kind → Bool
has_kind none = false
has_kind (some k) = true

abbrev pub bad_kind : Option Text → Bool
bad_kind none = false
bad_kind (some t) = not (has_kind (parse_kind (string t)))

abbrev pub at_least : ℕ → Option Num → Bool
at_least k none = false
at_least k (some n) = not (below n k)

abbrev pub present : {A : Type 0} → Option A → Bool
present none = false
present (some a) = true

abbrev status_outcome : Option Num → Outcome
status_outcome s = if at_least 500 s then failed else if at_least 400 s then refused else success

-- The outcome and the error type of a response that was completed.
unfoldable pub completed : Option Text → Option Num → Outcome × Option Text
completed none s = (status_outcome s, none)
completed (some k) s =
    if k is "timeout"
    then (timed_out, some (codes "timeout"))
    else if k is "canceled"
    then (canceled, some (codes "canceled"))
    else if k is "internal" || k is "unavailable"
    then (failed, none)
    else (refused, none)

-- The `switch` over the termination.
unfoldable pub by_termination : Facts → Option (Outcome × Option Text)
by_termination f =
    if f.termination is "peer_closed"
    then some (canceled, some (codes "canceled"))
    else if f.termination is "deadline"
    then some (timed_out, some (codes "timeout"))
    else if one_of f.termination ("handler_error" ∷ "write_error" ∷ "abandoned" ∷ [])
    then some (failed, some f.termination)
    else if f.termination is "response_completed"
    then some (completed f.failure_kind f.status)
    else none

abbrev pub is_error : Outcome → Bool
is_error success = false
is_error refused = false
is_error failed = true
is_error canceled = true
is_error timed_out = true

abbrev pub span_error_of : Facts → Outcome → Bool
span_error_of f o =
    not (f.termination is "response_completed") || at_least 500 f.status || is_error o

abbrev status_text : Option Num → Text
status_text none = []
status_text (some n) = string_of n

-- The error type that is filled in for an error without one.
abbrev pub fill_type : Facts → Option Text → Bool → Option Text
fill_type f (some t) error = some t
fill_type f none false = none
fill_type f none true =
    some (if at_least 500 f.status then status_text f.status else codes "handler_error")

abbrev pub invalid_completion : Failure
invalid_completion = typed_failure invalid "invalid HTTP completion" "http.invalid_completion"

abbrev pub classified : Facts → Option (Outcome × Option Text) → Result Classification Failure
classified f none = err invalid_completion
classified f (some (o, t)) = ok (record {
  outcome = o;
  span_error = span_error_of f o;
  error_type = fill_type f t (span_error_of f o);
})

unfoldable pub classify_completion : Facts → Result Classification Failure
classify_completion f = do
  refuse_if (bad_status f.status) invalid_completion
  refuse_if (bad_kind f.failure_kind) invalid_completion
  refuse_if (f.termination is "response_completed" && not (present f.status)) invalid_completion
  classified f (by_termination f)

pub record Problem : Type 0 where
  pub type : Text
  pub title : String
  pub detail : String
  pub kind : Kind
  pub status : ℕ
  pub code : Option String
  pub fields : Option Fields

abbrev status_of : Kind → ℕ
status_of Kind.invalid = 400
status_of Kind.not_found = 404
status_of Kind.conflict = 409
status_of Kind.unauthenticated = 401
status_of Kind.forbidden = 403
status_of Kind.rate_limited = 429
status_of Kind.unavailable = 503
status_of Kind.timeout = 503
status_of Kind.canceled = 503
status_of Kind.internal = 500

-- `title[statusOf(kind)]`.
abbrev title_of : Kind → String
title_of Kind.invalid = "Bad Request"
title_of Kind.not_found = "Not Found"
title_of Kind.conflict = "Conflict"
title_of Kind.unauthenticated = "Unauthorized"
title_of Kind.forbidden = "Forbidden"
title_of Kind.rate_limited = "Too Many Requests"
title_of Kind.unavailable = "Service Unavailable"
title_of Kind.timeout = "Service Unavailable"
title_of Kind.canceled = "Service Unavailable"
title_of Kind.internal = "Internal Server Error"

abbrev filled : Option Fields → Option Fields
filled none = none
filled (some []) = none
filled (some (f ∷ fs)) = some (f ∷ fs)

-- The problem document of a public projection.
abbrev pub problem_from : PublicInfo → Problem
problem_from info = record {
  type = codes "urn:n2f:problem:" ++ codes (kind_name info.kind);
  title = title_of info.kind;
  detail = info.message;
  kind = info.kind;
  status = status_of info.kind;
  code = truthy info.type;
  fields = filled info.fields;
}

unfoldable pub problem_of : Result Value Unknown → Option Problem
problem_of (ok v) = none
problem_of (err e) = some (problem_from (public_info e))
