-- ===== src/Common/Decimals.antt =====
-- Decimal digits and characters of strings.
use Prim.Native.Nat.{ℕ, zero, suc, ◌+◌, ◌-◌, ◌*◌, ◌/◌, ◌%◌}
use mathlib.Core.Bool.{Bool, true, false, ◌&&◌, ◌||◌}
use mathlib.Core.List.{List, [], ◌∷◌, ◌++◌}
use modular_hx_fastapi.Common.Tests.{if◌then◌else◌, ltb, ◌==◌}
use modular_hx_fastapi.Common.Lists.{all, any, length}
use modular_hx_fastapi.Common.Js.{Num, nat, neg, non_integer}
use modular_hx_fastapi.Common.Texts.{Text, in_range, is_digit}

-- `/^(0|[1-9][0-9]*)$/`.
unfoldable pub is_decimal : Text → Bool
is_decimal [] = false
is_decimal (c ∷ s) = (c == b'0' && length s == 0) || (in_range b'1' b'9' c && all is_digit s)

-- `Number` of decimal digits.
abbrev pub decimal_from : ℕ → Text → ℕ
decimal_from acc [] = acc
decimal_from acc (c ∷ s) = decimal_from (acc * 10 + (c - b'0')) s

abbrev is_pair : ℕ → ℕ → Bool
is_pair a b = in_range 0xd800 0xdbff a && in_range 0xdc00 0xdfff b

-- `[...value]`: a surrogate pair is one character.
unfoldable pub characters : Text → List Text
characters [] = []
characters (a ∷ []) = (a ∷ []) ∷ []
characters (a ∷ b ∷ s) = elim (is_pair a b) [
  | true ↦ (a ∷ b ∷ []) ∷ characters s
  | false ↦ (a ∷ []) ∷ characters (b ∷ s)
]

abbrev is_lone_surrogate : Text → Bool
is_lone_surrogate (a ∷ []) = in_range 0xd800 0xdfff a
is_lone_surrogate _ = false

-- `/[\uD800-\uDFFF]/u.test(value)`.
unfoldable pub has_lone_surrogate : Text → Bool
has_lone_surrogate s = any is_lone_surrogate (characters s)

abbrev starts_control : Text → Bool
starts_control [] = false
starts_control (c ∷ s) = in_range 0 31 c || c == 127

-- `[...value].some((c) => c.charCodeAt(0) < 32 || c.charCodeAt(0) === 127)`.
unfoldable pub has_control : Text → Bool
has_control s = any starts_control (characters s)

-- The decimal digits of a number below 10 ^ f; 16 are enough for every safe integer.
unfoldable pub to_decimal : ℕ → ℕ → Text
to_decimal zero n = []
to_decimal (suc f) n =
    let rest = to_decimal f (n / 10) in
    if ltb n 10 then (n + b'0') ∷ [] else rest ++ (n % 10 + b'0') ∷ []

-- `String(n)` of a safe integer.
unfoldable pub string_of : Num → Text
string_of (nat n) = to_decimal 16 n
string_of (neg n) = b'-' ∷ to_decimal 16 (n + 1)
string_of non_integer = []
