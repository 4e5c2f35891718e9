-- ===== src/Identifiers/Generator.antt =====
-- src/shared/id/v7.ts and sequence.ts: the generators, as functions of the state that they keep.
use Prim.Native.Nat.{bit_and, bit_or}
use modular_hx_fastapi.Common.{
  Bool, List, Num, Option, Text, [], drop, false, if◌then◌else◌, leb, ltb, max_safe_integer, nat,
  neg, non_integer, none, not, some, true, ℕ, ◌*◌, ◌+◌, ◌==◌, ◌||◌, ◌∷◌,
}
use modular_hx_fastapi.Errors.{
  Failure, Result, Unknown, err, failure, invalid, ok, typed_failure, unavailable,
}
use modular_hx_fastapi.Identifiers.Values.{encode_v7}

-- The private fields of `V7`.
pub record V7 : Type 0 where
  pub last : Option ℕ
  pub counter : ℕ

abbrev pub initial : V7
initial = record { last = none; counter = 0 }

abbrev pub time_range : Failure
time_range = typed_failure invalid "ID timestamp out of range" "id.time_range"

abbrev pub exhausted : Failure
exhausted = typed_failure unavailable "ID counter exhausted" "id.exhausted"

abbrev pub entropy_failure : Unknown → Failure
entropy_failure cause =
    failure unavailable "ID entropy unavailable"
      (record { type = some "id.entropy"; fields = none; details = []; cause = cause })

abbrev pub max_time : ℕ
max_time = 281474976710655

-- `((random[0] << 8) | random[1]) & 0x07ff`.
unfoldable pub fresh_counter : List ℕ → ℕ
fresh_counter (a ∷ b ∷ _) = bit_and (bit_or (a * 256) b) 0x07ff
fresh_counter _ = 0

-- What one call of the entropy source does: it fills ten bytes, or throws a cause.
pub data Entropy : Type 0 where
  fills : List ℕ → Entropy
  throws : Unknown → Entropy

-- The part after the timestamp and the counter are chosen.
unfoldable pub commit : V7 → Bool → ℕ → ℕ → Entropy → Result Text Failure × V7
commit g fresh ms next (throws cause) = (err (entropy_failure cause), g)
commit g fresh ms next (fills random) =
    let counter = if fresh then fresh_counter random else next in
    (ok (encode_v7 ms counter (drop 2 random)), record { last = some ms; counter = counter })

-- The timestamp and the counter: fresh ones when the clock moved on, else the next counter of the last
-- timestamp.
unfoldable pub choose : V7 → Option ℕ → ℕ → Entropy → Result Text Failure × V7
choose g none now entropy = commit g true now 0 entropy
choose g (some last) now entropy =
    if ltb last now
    then commit g true now 0 entropy
    else if g.counter == 4095
    then (err exhausted, g)
    else commit g false last (g.counter + 1) entropy

-- `newId`, for a reading of the clock and a draw of entropy.
unfoldable pub new_id : V7 → Num → Entropy → Result Text Failure × V7
new_id g (neg n) entropy = (err time_range, g)
new_id g non_integer entropy = (err time_range, g)
new_id g (nat now) entropy =
    if not (leb now max_safe_integer) || ltb max_time now
    then (err time_range, g)
    else choose g g.last now entropy

-- `Sequence`: the copied fixtures and the position of the next one.
pub record Sequence : Type 0 where
  pub ids : List Text
  pub next : ℕ

abbrev pub sequence_exhausted : Failure
sequence_exhausted = typed_failure unavailable "ID sequence exhausted" "id.sequence_exhausted"

unfoldable pub next_id : Sequence → Result Text Failure × Sequence
next_id s = elim (drop s.next s.ids) [
  | [] ↦ (err sequence_exhausted, s)
  | id ∷ _ ↦ (ok id, record s { next = s.next + 1 })
]
