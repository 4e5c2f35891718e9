-- ===== src/Events/Works.antt =====
-- src/shared/events/index.ts: the work that envelopes carry. Whatever throws while an envelope is
-- read becomes the same failure, so reading is an option.
use modular_hx_fastapi.Common.{
  Bool, List, Num, Option, Props, String, Text, Value, [], codes, end, false, if◌then◌else◌,
  non_integer, none, null, number, object, one_of, prop, some, string, true, ◌&&◌, ◌is◌, ◌∷◌,
}
use modular_hx_fastapi.Errors.{Failure, Result, err, invalid, ok, typed_failure}
use modular_hx_fastapi.Identifiers.{parse}
use modular_hx_fastapi.Provenance.{
  Actor, Attribution, Reference, Replay, WorkContext, actor, attribution, operation, reference,
  restore_work,
}

abbrev pub invalid_event : Failure
invalid_event = typed_failure invalid "invalid event envelope" "events.invalid"

infixl 5 ◌>>=◌ ◌>>◌
abbrev pub ◌>>=◌ {ℓ κ} : {A : Type ℓ} {B : Type κ} → Option A → (A → Option B) → Option B
none >>= next = none
some a >>= next = next a

abbrev pub ◌>>◌ {κ} : {B : Type κ} → Option (Unit {0}) → Option B → Option B
check >> rest = check >>= λ _. rest

abbrev pub require : Bool → Option (Unit {0})
require test = if test then some tt else none

-- `value(r)`.
abbrev pub value_of {ℓ} : {A : Type ℓ} → Result A Failure → Option A
value_of (err f) = none
value_of (ok a) = some a

-- `object(v)`.
abbrev pub object_of : Value → Option Props
object_of (object ps) = some ps
object_of _ = none

-- `str(v)`.
abbrev pub text_of : Value → Option Text
text_of (string t) = some t
text_of _ = none

-- `v == null`.
abbrev pub is_nullish : Value → Bool
is_nullish Value.undefined = true
is_nullish null = true
is_nullish _ = false

-- `o[key]`; keys of parsed objects are distinct.
unfoldable pub field : String → Props → Value
field key end = Value.undefined
field key (prop k v ps) = if k is key then v else field key ps

-- `keys(o, allowed)`.
unfoldable pub only_keys : List String → Props → Bool
only_keys allowed end = true
only_keys allowed (prop k v ps) = one_of k allowed && only_keys allowed ps

-- A value that may be missing is read if it is there.
abbrev pub optional {ℓ} : {A : Type ℓ} → (Value → Option A) → Value → Option (Option A)
optional read v = elim (is_nullish v) [
  | true ↦ some none
  | false ↦ elim (read v) [ none ↦ none | some a ↦ some (some a) ]
]

abbrev pub or_empty_text : Option Text → Text
or_empty_text none = []
or_empty_text (some t) = t

-- `actorIn` of a value that is there.
unfoldable pub actor_in : Value → Option Actor
actor_in v = do
  a ← object_of v
  require (only_keys ("kind" ∷ "identity" ∷ []) a)
  kind ← text_of (field "kind" a)
  identity ← optional text_of (field "identity" a)
  value_of (actor kind (or_empty_text identity))

-- `value(parse(str(v)))`.
unfoldable pub id_in : Value → Option Text
id_in v = do t ← text_of v; value_of (parse (string t))

-- `refIn` of a value that is there.
unfoldable pub ref_in : Value → Option Reference
ref_in v = do
  r ← object_of v
  require (only_keys ("kind" ∷ "id" ∷ []) r)
  kind ← text_of (field "kind" r)
  id ← id_in (field "id" r)
  value_of (reference kind id)

unfoldable pub attribution_in : Value → Option Attribution
attribution_in v = do
  a ← object_of v
  require (only_keys ("initiator" ∷ "on_behalf_of" ∷ "tenant" ∷ []) a)
  initiator ← optional actor_in (field "initiator" a)
  on_behalf_of ← optional actor_in (field "on_behalf_of" a)
  tenant ← optional text_of (field "tenant" a)
  value_of
      (attribution (record { initiator = initiator; on_behalf_of = on_behalf_of; tenant = tenant }))

-- A replay without a source is cast, and `restoreWork` refuses it.
abbrev pub no_reference : Reference
no_reference = record { known = false; kind = []; id = [] }

abbrev pub or_no_reference : Option Reference → Reference
or_no_reference none = no_reference
or_no_reference (some r) = r

unfoldable pub replay_in : Value → Option Replay
replay_in v = do
  r ← object_of v
  require (only_keys ("run_id" ∷ "source" ∷ []) r)
  run_id ← id_in (field "run_id" r)
  source ← optional ref_in (field "source" r)
  some (record { run_id = some run_id; source = or_no_reference source })

-- A depth is cast to a number, and `restoreWork` refuses what is no integer.
abbrev pub number_of : Value → Option Num
number_of (number n) = some n
number_of _ = some non_integer

abbrev pub work_keys : List String
work_keys =
    "work_id" ∷ "correlation_id" ∷ "correlation_source" ∷ "operation" ∷ "attribution" ∷ "causation"
    ∷ "origin" ∷ "depth" ∷ "replay" ∷ []

-- The readings of `work_in` after the names of the members are tested.
abbrev pub read_work : Props → Option WorkContext
read_work w = do
  attributed ← attribution_in (field "attribution" w)
  replayed ← optional replay_in (field "replay" w)
  work_id ← id_in (field "work_id" w)
  correlated ← id_in (field "correlation_id" w)
  source ← text_of (field "correlation_source" w)
  raw_operation ← text_of (field "operation" w)
  op ← value_of (operation raw_operation)
  causation ← optional ref_in (field "causation" w)
  origin ← optional text_of (field "origin" w)
  depth ← optional number_of (field "depth" w)
  value_of (
      restore_work (record {
        work_id = some work_id;
        correlation_id = some correlated;
        correlation_source = source;
        causation = causation;
        origin = origin;
        operation = op;
        attribution = attributed;
        depth = depth;
        replay = replayed;
      }))

unfoldable pub work_in : Value → Option WorkContext
work_in v = do w ← object_of v; require (only_keys work_keys w); read_work w

-- A property of a JSON text; `JSON.stringify` leaves one out that is undefined.
abbrev pub with_prop : String → Option Value → Props → Props
with_prop key none ps = ps
with_prop key (some v) ps = prop (codes key) v ps

abbrev pub string_value : Option Text → Option Value
string_value none = none
string_value (some t) = some (string t)

abbrev pub number_value : Option Num → Option Value
number_value none = none
number_value (some n) = some (number n)

unfoldable pub actor_out : Option Actor → Option Value
actor_out none = none
actor_out (some a) = some (
    object
      (prop (codes "kind") (string a.kind) (with_prop "identity" (string_value a.identity) end)))

unfoldable pub ref_out : Option Reference → Option Value
ref_out none = none
ref_out (some r) =
    some (object (prop (codes "kind") (string r.kind) (prop (codes "id") (string r.id) end)))

unfoldable pub attribution_out : Attribution → Value
attribution_out a = object (
    with_prop "initiator" (actor_out a.initiator) (
      with_prop "on_behalf_of" (actor_out a.on_behalf_of)
        (with_prop "tenant" (string_value a.tenant) end)))

unfoldable pub replay_out : Option Replay → Option Value
replay_out none = none
replay_out (some r) = some (
    object (
      with_prop "run_id" (string_value r.run_id)
        (with_prop "source" (ref_out (some r.source)) end)))

-- `workOut`, as it stands in the JSON text.
unfoldable pub work_out : WorkContext → Value
work_out c =
    let w = c.snapshot in
    object (
      with_prop "work_id" (string_value w.work_id) (
        with_prop "correlation_id" (string_value w.correlation_id) (
          prop (codes "correlation_source") (string w.correlation_source) (
            prop (codes "operation") (string w.operation) (
              prop (codes "attribution") (attribution_out w.attribution) (
                with_prop "causation" (ref_out w.causation) (
                  with_prop "origin" (string_value w.origin) (
                    with_prop "depth" (number_value w.depth)
                      (with_prop "replay" (replay_out w.replay) end)))))))))
