-- ===== src/Errors/Failures.antt =====
-- src/shared/errors/failure.ts: failure values, enrichment, projection and the exception carrier.
use text.Mathlib.Text.{◌==◌ as str_eq}
use modular_hx_fastapi.Common.{
  Bool, true, false, Option, none, some, List, [], ◌∷◌, String, Text, same, Value, if◌then◌else◌,
}
use modular_hx_fastapi.Errors.Kinds.{Kind, internal}

-- A plain record from names to texts, in insertion order.
abbrev pub Fields : Type 0
Fields = List (Text × Text)

-- `record[key] = value`: a key that is there keeps its place.
unfoldable pub put : Text → Text → Fields → Fields
unfolding same
put k v [] = (k, v) ∷ []
put k v ((j, w) ∷ m) = if same j k then (j, v) ∷ m else (j, w) ∷ put k v m

unfoldable pub lookup : Text → Fields → Option Text
unfolding same
lookup k [] = none
lookup k ((j, v) ∷ m) = if same j k then some v else lookup k m

-- `{ ...a, ...b }`.
unfoldable pub merge : Fields → Fields → Fields
unfolding put
merge a [] = a
merge a ((k, v) ∷ b) = merge (put k v a) b

-- A value of unknown origin. `failed` is a failure object with its diagnostic (fields `cause` last),
-- `carrier` an `AppError` about such an object, `plain` any value that neither weak map has.
pub data Unknown : Type 0 where
  plain : Value → Unknown
  failed carrier : Kind → String → Option String → Option Fields → Fields → Unknown → Unknown

pub record Failure : Type 0 where
  pub kind : Kind
  pub message : String
  pub type : Option String
  pub fields : Option Fields
  pub details : Fields
  pub cause : Unknown

abbrev pub of_failure : Failure → Unknown
of_failure f = failed f.kind f.message f.type f.fields f.details f.cause

abbrev pub undefined : Unknown
undefined = plain Value.undefined

pub record Options : Type 0 where
  pub type : Option String
  pub fields : Option Fields
  pub details : Fields
  pub cause : Unknown

-- `options.type ? { type } : {}`, which drops an empty text too.
abbrev pub truthy : Option String → Option String
truthy none = none
truthy (some s) = if str_eq s "" then none else some s

-- `failure(kind, message, options)`.
unfoldable pub failure : Kind → String → Options → Failure
failure k m o = record {
  kind = k;
  message = m;
  type = truthy o.type;
  fields = o.fields;
  details = o.details;
  cause = o.cause;
}

-- `failure(kind, message, { type })`, the form that most of the program uses.
abbrev pub typed_failure : Kind → String → String → Failure
typed_failure k m t =
    failure k m (record { type = some t; fields = none; details = []; cause = undefined })

unfoldable pub trusted : Unknown → Option Failure
trusted (plain v) = none
trusted (failed k m t fs ds c) =
    some (record { kind = k; message = m; type = t; fields = fs; details = ds; cause = c })
trusted (carrier k m t fs ds c) =
    some (record { kind = k; message = m; type = t; fields = fs; details = ds; cause = c })

-- `none` stands for the `TypeError`: a carrier is no failure itself.
unfoldable pub require_failure : Unknown → Option Failure
require_failure (failed k m t fs ds c) =
    some (record { kind = k; message = m; type = t; fields = fs; details = ds; cause = c })
require_failure _ = none

abbrev or_empty : Option Fields → Fields
or_empty none = []
or_empty (some fs) = fs

infixl 5 ◌>>=◌
abbrev ◌>>=◌ : Option Failure → (Failure → Option Unknown) → Option Unknown
none >>= k = none
some a >>= k = k a

unfoldable pub with_fields : Unknown → Fields → Option Unknown
unfolding require_failure merge
with_fields value fields = do
  f ← require_failure value
  some (of_failure (record f { fields = some (merge (or_empty f.fields) fields) }))

unfoldable pub with_details : Unknown → Fields → Option Unknown
unfolding require_failure merge
with_details value details = do
  f ← require_failure value
  some (of_failure (record f { details = merge f.details details }))

unfoldable pub with_cause : Unknown → Unknown → Option Unknown
unfolding require_failure
with_cause value cause = do
  f ← require_failure value
  some (of_failure (record f { cause = cause }))

-- The constructor of `AppError`.
unfoldable pub app_error : Unknown → Option Unknown
unfolding require_failure
app_error value = do
  f ← require_failure value
  some (carrier f.kind f.message f.type f.fields f.details f.cause)

unfoldable pub kind_of : Unknown → Option Kind
unfolding trusted
kind_of value = elim (trusted value) [ none ↦ none | some f ↦ some f.kind ]

pub record PublicInfo : Type 0 where
  pub kind : Kind
  pub message : String
  pub type : Option String
  pub fields : Option Fields

abbrev pub concealed : PublicInfo
concealed = record { kind = internal; message = "internal error"; type = none; fields = none }

abbrev is_internal : Kind → Bool
is_internal internal = true
is_internal _ = false

unfoldable pub public_of : Failure → PublicInfo
public_of f = if is_internal f.kind then concealed else record {
  kind = f.kind;
  message = if str_eq f.message "" then "request failed" else f.message;
  type = truthy f.type;
  fields = f.fields;
}

unfoldable pub public_info : Unknown → PublicInfo
unfolding trusted public_of
public_info value = elim (trusted value) [ none ↦ concealed | some f ↦ public_of f ]

unfoldable pub details_of : Unknown → Fields
unfolding trusted
details_of value = elim (trusted value) [ none ↦ [] | some f ↦ f.details ]

unfoldable pub cause_of : Unknown → Unknown
unfolding trusted
cause_of value = elim (trusted value) [ none ↦ undefined | some f ↦ f.cause ]

unfoldable pub from_caught : Unknown → Failure
unfolding trusted failure
from_caught value = elim (trusted value) [
  | some f ↦ f
  | none ↦
      failure internal "unexpected failure"
        (record { type = none; fields = none; details = []; cause = value })
]
