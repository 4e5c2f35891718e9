-- ===== src/Pagination/Cursors.antt =====
-- src/shared/pagination/index.ts: page sizes, cursors and windows. The encodings are Node's and are
-- parameters.
use modular_hx_fastapi.Common.{
  Bool, List, Num, Option, Text, Value, [], above, all, array, below, cons, equals, false,
  has_control, has_lone_surrogate, if◌then◌else◌, is_digit, is_integer, is_lower, is_upper, leb,
  length, ltb, nat, nil, none, not, number, same, some, string, suc, take, true, ℕ, ◌&&◌, ◌==◌,
  ◌||◌, ◌∷◌,
}
use modular_hx_fastapi.Errors.{Failure, Result, err, invalid, ok, refuse_if, typed_failure, ◌>>◌}
use modular_hx_fastapi.Validation.{decimal}

abbrev pub invalid_pagination : Failure
invalid_pagination = typed_failure invalid "invalid pagination" "pagination.invalid"

unfoldable pub size : Option Text → Result ℕ Failure
size none = ok 25
size (some raw) = decimal raw (nat 1) (nat 100)

-- What the file uses of Node: the bytes of a text in UTF-8, the base64url text of the JSON array
-- `[1, scope, position]`, the text that decodes to the same bytes again, and the parsed JSON of a wire
-- text, `none` where the decoder or the parser throws.
pub record Codec : Type 0 where
  pub byte_length : Text → ℕ
  pub to_wire : Text → Text → Text
  pub normal_wire : Text → Text
  pub from_wire : Text → Option Value

pub record Page (A : Type 0) : Type 0 where
  pub items : List A
  pub has_more : Bool
  pub next_cursor : Option Text

abbrev pub is_wire_unit : ℕ → Bool
is_wire_unit c = is_upper c || is_lower c || is_digit c || c == b'_' || c == b'-'

abbrev pub last_of {ℓ} : {A : Type ℓ} → List A → Option A
last_of [] = none
last_of (x ∷ []) = some x
last_of (x ∷ y ∷ ys) = last_of (y ∷ ys)

-- The number that a limit is, once it is known for an integer of at least 1.
abbrev pub whole : Num → ℕ
whole (nat n) = n
whole _ = 0

abbrev pub bad_limit : Num → ℕ → Bool
bad_limit limit rows =
    not (is_integer limit) || below limit 1 || above limit 100 || ltb (suc (whole limit)) rows

abbrev pub bad_wire : Text → Bool
bad_wire wire = length wire == 0 || ltb 1024 (length wire) || not (all is_wire_unit wire)

abbrev pub or_invalid : Option Text → Result Text Failure
or_invalid none = err invalid_pagination
or_invalid (some p) = ok p

module _ (c : Codec) where
  unfoldable pub valid_part : Text → ℕ → Bool
  valid_part value high =
      not (has_lone_surrogate value)
      && ltb 0 (length value)
      && leb (c.byte_length value) high
      && not (has_control value)

  unfoldable pub encode : Text → Text → Result Text Failure
  encode scope position =
      if valid_part scope 128 && valid_part position 256
      then ok (c.to_wire scope position)
      else err invalid_pagination

  -- The tests of `decode` on the parsed value.
  abbrev pub position_of : Text → Value → Option Text
  position_of scope (array (cons (number v) (cons (string s) (cons (string p) nil)))) =
      if equals v 1 && same s scope && valid_part p 256 then some p else none
  position_of scope _ = none

  abbrev parsed_position : Text → Option Value → Option Text
  parsed_position scope none = none
  parsed_position scope (some v) = position_of scope v

  unfoldable pub decode : Text → Text → Result Text Failure
  decode wire scope = do
    refuse_if (bad_wire wire || not (valid_part scope 128)) invalid_pagination
    refuse_if (not (same (c.normal_wire wire) wire)) invalid_pagination
    or_invalid (parsed_position scope (c.from_wire wire))

  -- `window`; the position of the last item is read only if there are more rows, so there is one.
  unfoldable pub window : {A : Type 0} → List A → Num → Text → (A → Text) → Result (Page A) Failure
  window rows limit scope position = elim (bad_limit limit (length rows)) [
    | true ↦ err invalid_pagination
    | false ↦
        let items = take (whole limit) rows in
        elim (ltb (whole limit) (length rows)) [
          | false ↦ ok (record { items = items; has_more = false; next_cursor = none })
          | true ↦ elim (last_of items) [
            | none ↦ err invalid_pagination
            | some last ↦ elim (encode scope (position last)) [
              | err f ↦ err f
              | ok next ↦ ok (record { items = items; has_more = true; next_cursor = some next })
            ]
          ]
        ]
  ]
