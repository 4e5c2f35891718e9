-- ===== src/Events/Envelopes.antt =====
-- src/shared/events/index.ts: envelopes. Bytes are texts of units below 256.
use modular_hx_fastapi.Common.{
  Bool, List, Num, Option, Props, String, Text, Value, [], above, all, below, codes, end, equals,
  false, if◌then◌else◌, in_range, is_digit, is_lower, is_safe_integer, leb, length, ltb, nat, none,
  not, number, object, prop, some, string, suc, true, ℕ, ◌&&◌, ◌==◌, ◌is◌, ◌||◌, ◌∷◌,
}
use modular_hx_fastapi.Errors.{Failure, Result, err, ok}
use modular_hx_fastapi.Provenance.{WorkContext}
use modular_hx_fastapi.Events.Works.{
  field, id_in, invalid_event, object_of, require, work_in, work_out, ◌>>=◌, ◌>>◌,
}

pub record Envelope : Type 0 where
  pub id : Text
  pub raw : Text
  pub work : WorkContext

-- What the file uses of the platform: the bytes of the JSON text of a value, and the value of bytes, `none` if
-- they are no UTF-8 or no JSON.
pub record Json : Type 0 where
  pub stringify : Value → Text
  pub parse_bytes : Text → Option Value

abbrev pub max_bytes : ℕ
max_bytes = 65536

-- The last part of a type, `v` and its version.
abbrev is_version : Text → Bool
is_version (v ∷ d ∷ ds) = v == b'v' && in_range b'1' b'9' d && all is_digit ds && leb (length ds) 5
is_version _ = false

abbrev is_type_unit : ℕ → Bool
is_type_unit c = is_lower c || is_digit c || c == b'_' || c == b'.' || c == b'-'

-- Some dot after at most 120 units of the name, and not first, stands before the version.
unfoldable pub dotted : ℕ → Text → Bool
dotted n [] = false
dotted n (c ∷ s) =
    (c == b'.' && leb 1 n && is_version s) || (is_type_unit c && ltb n 120 && dotted (suc n) s)

-- `/^[a-z0-9_.-]{1,120}\.v[1-9][0-9]{0,5}$/`, behind the test of the length.
abbrev pub valid_type : Text → Bool
valid_type t = leb (length t) 128 && dotted 0 t

abbrev pub count_keys : Props → ℕ
count_keys end = 0
count_keys (prop k v ps) = suc (count_keys ps)

-- `Object.hasOwn(o, key)`.
unfoldable pub has_key_named : String → Props → Bool
has_key_named key end = false
has_key_named key (prop k v ps) = k is key || has_key_named key ps

abbrev pub has_keys : List String → Props → Bool
has_keys [] ps = true
has_keys (k ∷ ks) ps = has_key_named k ps && has_keys ks ps

abbrev pub envelope_keys : List String
envelope_keys = "v" ∷ "id" ∷ "type" ∷ "occurred_at_ms" ∷ "work" ∷ "payload" ∷ []

abbrev is_version_one : Value → Bool
is_version_one (number n) = equals n 1
is_version_one _ = false

abbrev is_type : Value → Bool
is_type (string t) = valid_type t
is_type _ = false

abbrev is_time : Value → Bool
is_time (number n) = is_safe_integer n && not (below n 0) && not (above n 253402300799999)
is_time _ = false

-- The tests of `decode` on the members, before the work is read.
unfoldable pub valid_head : Props → Bool
valid_head w =
    count_keys w == 6
    && has_keys envelope_keys w
    && is_version_one (field "v" w)
    && is_type (field "type" w)
    && is_time (field "occurred_at_ms" w)

-- `{ ...w, key: v }`.
unfoldable pub set_prop : String → Value → Props → Props
set_prop key v end = prop (codes key) v end
set_prop key v (prop k u ps) = if k is key then prop k v ps else prop k u (set_prop key v ps)

-- `{ ...w, id, work: workOut(work) }`.
unfoldable pub normalized_value : Text → WorkContext → Props → Value
normalized_value id work w = object (set_prop "work" (work_out work) (set_prop "id" (string id) w))

module _ (j : Json) where
  -- The part of `decode` in the `try`.
  unfoldable pub read_envelope : Value → Option Envelope
  read_envelope v = do
    w ← object_of v
    require (valid_head w)
    payload ← object_of (field "payload" w)
    id ← id_in (field "id" w)
    work ← work_in (field "work" w)
    let raw = j.stringify (normalized_value id work w)
    require (leb (length raw) max_bytes)
    some (record { id = id; raw = raw; work = work })

  -- `Envelope.decode`.
  unfoldable pub decode_envelope : Text → Result Envelope Failure
  decode_envelope raw =
      if ltb max_bytes (length raw)
      then err invalid_event
      else elim (j.parse_bytes raw >>= read_envelope) [ none ↦ err invalid_event | some e ↦ ok e ]

  -- `Envelope.create`.
  unfoldable pub create_envelope : Text → Text → Num → WorkContext → Props → Result Envelope Failure
  create_envelope id type occurred_at_ms work payload = decode_envelope (
      j.stringify (
        object (
          prop (codes "v") (number (nat 1)) (
            prop (codes "id") (string id) (
              prop (codes "type") (string type) (
                prop (codes "occurred_at_ms") (number occurred_at_ms) (
                  prop (codes "work") (work_out work)
                    (prop (codes "payload") (object payload) end))))))))
