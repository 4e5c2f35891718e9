-- ===== src/Identifiers/Values.antt =====
-- src/shared/id/value.ts: parsing, version, timestamp and the encoding of version 7.
use Prim.Native.Nat.{bit_and, bit_or}
use modular_hx_fastapi.Common.{
  Bool, List, Option, Text, Value, [], drop, false, if◌then◌else◌, in_range, is_digit, length, ltb,
  none, not, replicate, some, string, suc, take, to_lower_case, true, zero, ℕ, ◌%◌, ◌&&◌, ◌*◌, ◌++◌,
  ◌+◌, ◌-◌, ◌/◌, ◌==◌, ◌||◌, ◌∷◌,
}
use modular_hx_fastapi.Errors.{Failure, Result, err, invalid, ok, typed_failure}

abbrev pub is_hex : ℕ → Bool
is_hex c = is_digit c || in_range b'a' b'f' c

-- The classes of the pattern, with its `i` flag: a letter of either case.
abbrev pub is_hex_any : ℕ → Bool
is_hex_any c = is_hex c || in_range b'A' b'F' c

abbrev pub is_dash : ℕ → Bool
is_dash c = c == b'-'

abbrev pub is_variant : ℕ → Bool
is_variant c = c == b'8' || c == b'9' || c == b'a' || c == b'b' || c == b'A' || c == b'B'

-- A pattern of single-character classes, anchored at both ends.
unfoldable pub matches : List (ℕ → Bool) → Text → Bool
matches [] [] = true
matches (p ∷ ps) (c ∷ cs) = p c && matches ps cs
matches _ _ = false

abbrev pub canonical_tail : List (ℕ → Bool)
canonical_tail =
    is_dash ∷ replicate 4 is_hex_any
    ++ (is_dash ∷ replicate 4 is_hex_any
        ++ (is_dash ∷ is_variant ∷ replicate 3 is_hex_any ++ (is_dash ∷ replicate 12 is_hex_any)))

abbrev pub canonical : List (ℕ → Bool)
canonical = replicate 8 is_hex_any ++ canonical_tail

abbrev pub invalid_id : Failure
invalid_id = typed_failure invalid "invalid ID" "id.invalid"

unfoldable pub parse : Value → Result Text Failure
parse (string input) =
    if not (length input == 36) || not (matches canonical input)
    then err invalid_id
    else ok (to_lower_case input)
parse _ = err invalid_id

abbrev pub hex_value : ℕ → ℕ
hex_value c = if is_digit c then c - b'0' else if in_range b'a' b'f' c then c - 87 else c - 55

-- `Number.parseInt(s, 16)` reads digits up to the first other character; `none` is NaN.
unfoldable pub parse_from : ℕ → Text → ℕ
parse_from acc [] = acc
parse_from acc (c ∷ cs) = elim (is_hex_any c) [
  | true ↦ parse_from (16 * acc + hex_value c) cs
  | false ↦ acc
]

unfoldable pub parse_int_16 : Text → Option ℕ
parse_int_16 [] = none
parse_int_16 (c ∷ cs) = if is_hex_any c then some (parse_from (hex_value c) cs) else none

unfoldable pub version : Text → Option ℕ
version id = parse_int_16 (take 1 (drop 14 id))

unfoldable pub unix_millis : Text → Option ℕ
unix_millis id = elim (version id) [
  | none ↦ none
  | some v ↦ if v == 7 then parse_int_16 (take 8 id ++ take 4 (drop 9 id)) else none
]

abbrev pub digit : ℕ → ℕ
digit n = if ltb n 10 then n + b'0' else n + 87

-- `n.toString(16)` for the first `f` digits; 14 are enough for every safe integer.
unfoldable pub to_hex : ℕ → ℕ → Text
to_hex zero n = []
to_hex (suc f) n =
    let rest = to_hex f (n / 16) in if ltb n 16 then digit n ∷ [] else rest ++ digit (n % 16) ∷ []

unfoldable pub to_string_16 : ℕ → Text
to_string_16 n = to_hex 14 n

unfoldable pub pad_start : ℕ → Text → Text
pad_start w s = replicate (w - length s) b'0' ++ s

-- The bytes after the first one of the suffix, two digits each.
unfoldable pub tail_bytes : List ℕ → Text
tail_bytes [] = []
tail_bytes (b ∷ bs) = pad_start 2 (to_string_16 b) ++ tail_bytes bs

unfoldable pub tail_hex : List ℕ → Text
tail_hex [] = []
tail_hex (b ∷ bs) = tail_bytes (bit_or (bit_and b 0x3f) 0x80 ∷ bs)

unfoldable pub encode_v7 : ℕ → ℕ → List ℕ → Text
encode_v7 ms counter suffix =
    let stamp = pad_start 12 (to_string_16 ms) in
    let sequence = to_string_16 (bit_or 0x7000 counter) in
    let tail = tail_hex suffix in
    take 8 stamp
    ++ (b'-' ∷ drop 8 stamp ++ (b'-' ∷ sequence ++ (b'-' ∷ take 4 tail ++ (b'-' ∷ drop 4 tail))))
