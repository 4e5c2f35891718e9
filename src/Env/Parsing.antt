-- ===== src/Env/Parsing.antt =====
-- src/shared/env/parse.ts: keys and integers.
use modular_hx_fastapi.Common.{
  Bool, Num, Option, Text, [], all, decimal_from, false, if◌then◌else◌, is_decimal, is_digit,
  is_safe_integer, is_upper, nat, neg, none, some, suc, zero, ℕ, ◌&&◌, ◌==◌, ◌||◌, ◌∷◌,
}

abbrev is_key_unit : ℕ → Bool
is_key_unit c = is_upper c || is_digit c || c == b'_'

-- `/^[A-Z][A-Z0-9_]*$/`.
unfoldable pub valid_key : Text → Bool
valid_key [] = false
valid_key (c ∷ s) = is_upper c && all is_key_unit s

abbrev pub safe : Num → Option Num
safe n = if is_safe_integer n then some n else none

-- The integer -n; minus zero is the number 0.
abbrev pub negated : ℕ → Num
negated zero = nat 0
negated (suc n) = neg n

abbrev pub unsigned : Text → Option Num
unsigned s = if is_decimal s then safe (nat (decimal_from 0 s)) else none

unfoldable pub integer : Text → Option Num
integer [] = none
integer (c ∷ s) =
    if c == b'-'
    then if is_decimal s then safe (negated (decimal_from 0 s)) else none
    else unsigned (c ∷ s)
