-- ===== src/Errors/Projection.antt =====
-- What callers learn from a failure, and what enrichment keeps (src/shared/errors/failure.ts).
use modular_hx_fastapi.Common.{
  Option, Text, [], arith, if◌then◌else◌, none, refl, same, same_iff, some, ◌∷◌, ◌≡◌, ◌≢◌, ◌⊎◌,
}
use modular_hx_fastapi.Errors.Kinds.{internal}
use modular_hx_fastapi.Errors.Failures.{
  Fields, Unknown, app_error, carrier, cause_of, concealed, details_of, failed, from_caught,
  kind_of, lookup, merge, of_failure, plain, public_info, put, with_cause, with_details,
  with_fields,
}

pub lookup-put :
    (k j v : Text) (m : Fields) → lookup j (put k v m) ≡ (if same k j then some v else lookup j m)
unfolding lookup put
lookup-put k j v [] = refl
lookup-put k j v ((i, w) ∷ m) =
    ground (arith, same_iff k j, same_iff i k, same_iff i j, lookup-put k j v m)

-- The last value that a record being spread gives to a key.
abbrev pub latest : Text → Fields → Option Text
latest k [] = none
latest k ((j, v) ∷ m) = elim (latest k m) [
  | some w ↦ some w
  | none ↦ if same j k then some v else none
]

abbrev pub override : Option Text → Option Text → Option Text
override (some v) o = some v
override none o = o

-- `{ ...a, ...b }` reads as the last entry of `b`, and as `a` where `b` has none.
pub lookup-merge :
    (k : Text) (a b : Fields) → lookup k (merge a b) ≡ override (latest k b) (lookup k a)
unfolding merge
lookup-merge k a [] = refl
lookup-merge k a ((j, v) ∷ b) = ground (arith, lookup-merge k (put j v a) b, lookup-put j k v a)

-- Adding private details to a failure keeps what callers are told and the cause, and the new details
-- win over the old ones, key by key.
with_details_keeps_public :
    (value out : Unknown) (ds : Fields)
    → with_details value ds ≡ some out
    → (public_info out ≡ public_info value)
      × (cause_of out ≡ cause_of value)
      × ((k : Text)
          → lookup k (details_of out) ≡ override (latest k ds) (lookup k (details_of value)))
unfolding with_details public_info cause_of details_of
with_details_keeps_public (failed k m t fs ds' c) out ds h =
    (ground arith, ground arith, λ key. ground (arith, lookup-merge key ds' ds))
with_details_keeps_public (plain v) out ds h = cc
with_details_keeps_public (carrier k m t fs ds' c) out ds h = cc

-- Replacing the cause keeps what callers are told and the details, and the cause is the new one.
with_cause_keeps_public :
    (value out cause : Unknown)
    → with_cause value cause ≡ some out
    → (public_info out ≡ public_info value)
      × (details_of out ≡ details_of value)
      × (cause_of out ≡ cause)
unfolding with_cause public_info cause_of details_of
with_cause_keeps_public (failed k m t fs ds' c) out cause h = ground arith
with_cause_keeps_public (plain v) out cause h = cc
with_cause_keeps_public (carrier k m t fs ds' c) out cause h = cc

-- Adding private details keeps what callers are told and the cause, and the new details win over the old
-- ones, key by key; replacing the cause keeps what callers are told and the details.
pub rebuilt_keeps_public :
    (value detailed caused cause : Unknown) (ds : Fields)
    → with_details value ds ≡ some detailed
    → with_cause value cause ≡ some caused
    → (public_info detailed ≡ public_info value)
      × (cause_of detailed ≡ cause_of value)
      × ((k : Text)
          → lookup k (details_of detailed) ≡ override (latest k ds) (lookup k (details_of value)))
      × (public_info caused ≡ public_info value)
      × (details_of caused ≡ details_of value)
      × (cause_of caused ≡ cause)
rebuilt_keeps_public value detailed caused cause ds h k =
    let (p, c, d) = with_details_keeps_public value detailed ds h in
    let (p', d', c') = with_cause_keeps_public value caused cause k in (p, c, d, p', d', c')

abbrev pub IsUnclassified : Unknown → Type 0
IsUnclassified v = (kind_of v ≡ none) ⊎ (kind_of v ≡ some internal)

-- Unclassified values and internal failures are told apart by nothing that callers see: not by
-- message, type, fields, details, cause or the value itself.
pub public_info_conceals :
    (v w : Unknown) → IsUnclassified v → IsUnclassified w → public_info v ≡ public_info w
unfolding public_info kind_of
public_info_conceals v w h k = rw (conceal v h, conceal w k)
  where
    conceal : (u : Unknown) → IsUnclassified u → public_info u ≡ concealed
    conceal (plain x) g = refl
    conceal (failed kd m t fs ds c) g = ground arith
    conceal (carrier kd m t fs ds c) g = ground arith

-- Normalising a caught value always yields a classified failure that tells callers what the value
-- told them; a value that was not classified becomes its private cause, and a second pass changes
-- nothing.
pub from_caught_lem :
    (v : Unknown)
    → (public_info (of_failure (from_caught v)) ≡ public_info v)
      × (kind_of (of_failure (from_caught v)) ≢ none)
      × (kind_of v ≡ none → cause_of (of_failure (from_caught v)) ≡ v)
      × (from_caught (of_failure (from_caught v)) ≡ from_caught v)
unfolding from_caught public_info kind_of cause_of
from_caught_lem (plain v) = (refl, λ e. cc, λ e. refl, refl)
from_caught_lem (failed k m t fs ds c) = (refl, λ e. cc, λ e. cc, refl)
from_caught_lem (carrier k m t fs ds c) = (refl, λ e. cc, λ e. cc, refl)

-- An exception carrier tells callers and operators what its failure does, and is itself refused by
-- withFields, withDetails and withCause.
pub app_error_lem :
    (value out cause : Unknown) (ds : Fields)
    → app_error value ≡ some out
    → (public_info out ≡ public_info value)
      × (kind_of out ≡ kind_of value)
      × (details_of out ≡ details_of value)
      × (cause_of out ≡ cause_of value)
      × (with_fields out ds ≡ none)
      × (with_details out ds ≡ none)
      × (with_cause out cause ≡ none)
unfolding app_error public_info kind_of details_of cause_of with_fields with_details with_cause
app_error_lem (failed k m t fs ds' c) out cause ds h = ground arith
app_error_lem (plain v) out cause ds h = cc
app_error_lem (carrier k m t fs ds' c) out cause ds h = cc
