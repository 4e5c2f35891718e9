-- ===== src/Validation/Reports.antt =====
-- src/shared/validation/index.ts: a report of at most 32 fields; the first code of a field stays.
use modular_hx_fastapi.Common.{
  Bool, Text, [], all, any, false, if◌then◌else◌, is_digit, is_lower, is_upper, leb, length, not,
  same, some, true, ℕ, ◌&&◌, ◌++◌, ◌==◌, ◌||◌, ◌∷◌,
}
use modular_hx_fastapi.Errors.{Failure, Fields, Result, err, failure, invalid, ok, undefined}
use modular_hx_fastapi.Validation.Scalars.{invalid_input}

pub record Report : Type 0 where
  pub issues : Fields
  pub truncated : Bool

unfoldable pub new_report : Report
new_report = record { issues = []; truncated = false }

abbrev is_field_unit : ℕ → Bool
is_field_unit c =
    is_upper c
    || is_lower c
    || is_digit c
    || c == b'_'
    || c == b'.'
    || c == b'['
    || c == b']'
    || c == b'-'

abbrev is_code_unit : ℕ → Bool
is_code_unit c = is_lower c || is_digit c || c == b'_' || c == b'.'

abbrev sized : ℕ → Text → Bool
sized high s = leb 1 (length s) && leb (length s) high

-- The two regular expressions of `add`.
unfoldable pub valid_issue : Text → Text → Bool
valid_issue field code =
    sized 128 field && all is_field_unit field && (sized 64 code && all is_code_unit code)

abbrev pub has_field : Text → Fields → Bool
has_field field m = any (λ (e : Text × Text). same field e.0) m

unfoldable pub add : Text → Text → Report → Result (Unit {0}) Failure × Report
add field code r =
    if not (valid_issue field code)
    then (err (invalid_input "validation.issue"), r)
    else if has_field field r.issues
    then (ok tt, r)
    else if length r.issues == 32
    then (ok tt, record r { truncated = true })
    else (ok tt, record r { issues = r.issues ++ (field, code) ∷ [] })

unfoldable pub result : Report → Result (Unit {0}) Failure
result r =
    if length r.issues == 0
    then ok tt
    else err (
        failure invalid "validation failed" (record {
          type = some "validation.failed";
          fields = some r.issues;
          details = [];
          cause = undefined;
        }))
