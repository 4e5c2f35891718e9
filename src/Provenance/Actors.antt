-- ===== src/Provenance/Actors.antt =====
-- src/shared/provenance/actor.ts, attribution.ts, reference.ts and operation.ts.
use Prim.Native.String
use modular_hx_fastapi.Common.{
  Bool, Option, String, Text, [], all, codes, false, if◌then◌else◌, is_digit, is_lower, is_upper,
  leb, length, none, not, one_of, same, some, string, true, ℕ, ◌&&◌, ◌==◌, ◌is◌, ◌||◌, ◌∷◌,
}
use modular_hx_fastapi.Errors.{Failure, Result, err, invalid, ok, refuse_if, typed_failure, ◌>>◌}
use modular_hx_fastapi.Identifiers.{parse}

abbrev pub invalid_provenance : String → Failure
invalid_provenance code =
    typed_failure invalid "invalid provenance" (String.◌++◌ "provenance." code)

pub record Actor : Type 0 where
  pub known : Bool
  pub kind : Text
  pub identity : Option Text

abbrev is_identity_unit : ℕ → Bool
is_identity_unit c =
    is_upper c
    || is_lower c
    || is_digit c
    || c == b'.'
    || c == b'_'
    || c == b':'
    || c == b'/'
    || c == b'-'

-- `/^[A-Za-z0-9._:/-]{1,128}$/`.
unfoldable pub identity_valid : Text → Bool
identity_valid s = leb 1 (length s) && leb (length s) 128 && all is_identity_unit s

abbrev pub is_empty : Text → Bool
is_empty [] = true
is_empty (c ∷ s) = false

unfoldable pub actor : Text → Text → Result Actor Failure
actor kind identity =
    if (kind is "anonymous" && not (is_empty identity))
      || (not (kind is "anonymous")
          && (not (one_of kind ("user" ∷ "service" ∷ "system" ∷ []))
              || not (identity_valid identity)))
    then err (invalid_provenance "invalid_actor")
    else ok (record {
      known = true;
      kind = kind;
      identity = if kind is "anonymous" then none else some identity;
    })

unfoldable pub anonymous : Actor
anonymous = record { known = true; kind = codes "anonymous"; identity = none }

unfoldable pub valid_actor : Option Actor → Bool
valid_actor none = false
valid_actor (some a) = a.known

unfoldable pub named_actor : Option Actor → Bool
named_actor none = false
named_actor (some a) = a.known && not (a.kind is "anonymous")

pub record AttributionSpec : Type 0 where
  pub initiator : Option Actor
  pub on_behalf_of : Option Actor
  pub tenant : Option Text

pub record Attribution : Type 0 where
  pub known : Bool
  pub spec : AttributionSpec
  pub open spec use *

abbrev pub same_option : Option Text → Option Text → Bool
same_option none none = true
same_option (some a) (some b) = same a b
same_option _ _ = false

-- `initiator.kind === onBehalfOf.kind && initiator.identity === onBehalfOf.identity`.
unfoldable pub same_actor : Option Actor → Option Actor → Bool
same_actor (some a) (some b) = same a.kind b.kind && same_option a.identity b.identity
same_actor _ _ = false

abbrev pub is_some {ℓ} : {A : Type ℓ} → Option A → Bool
is_some none = false
is_some (some a) = true

abbrev optional_identity : Option Text → Bool
optional_identity none = true
optional_identity (some t) = identity_valid t

unfoldable pub attribution : AttributionSpec → Result Attribution Failure
attribution s = do
  refuse_if (is_some s.initiator && not (valid_actor s.initiator))
      (invalid_provenance "invalid_attribution")
  refuse_if
      (is_some s.on_behalf_of
        && (not (named_actor s.initiator)
            || not (named_actor s.on_behalf_of)
            || same_actor s.initiator s.on_behalf_of))
      (invalid_provenance "invalid_attribution")
  refuse_if (not (optional_identity s.tenant)) (invalid_provenance "invalid_attribution")
  ok (record { known = true; spec = s })

pub record Reference : Type 0 where
  pub known : Bool
  pub kind : Text
  pub id : Text

-- `parse` accepts the text and gives it back unchanged.
unfoldable pub valid_id : Text → Bool
valid_id value = elim (parse (string value)) [ err f ↦ false | ok id ↦ same id value ]

abbrev pub valid_reference_kind : Text → Bool
valid_reference_kind k = k is "scope" || k is "work" || k is "event"

unfoldable pub reference : Text → Text → Result Reference Failure
reference kind id =
    if not (valid_reference_kind kind) || not (valid_id id)
    then err (invalid_provenance "invalid_reference")
    else ok (record { known = true; kind = kind; id = id })

abbrev is_operation_unit : ℕ → Bool
is_operation_unit c = is_lower c || is_digit c || c == b'_' || c == b'.' || c == b':' || c == b'-'

-- `/^[a-z][a-z0-9_.:-]{0,127}$/`.
unfoldable pub valid_operation : Text → Bool
valid_operation [] = false
valid_operation (c ∷ s) = is_lower c && leb (length s) 127 && all is_operation_unit s

unfoldable pub operation : Text → Result Text Failure
operation s = if valid_operation s then ok s else err (invalid_provenance "invalid_operation")
