-- ===== src/Validation/Scalars.antt =====
-- src/shared/validation/index.ts: checks of texts and decimal numbers.
use modular_hx_fastapi.Common.{
  Bool, Num, String, Text, above, all, below, characters, decimal_from, has_lone_surrogate,
  is_decimal, is_safe_integer, length, less, ltb, nat, not, ℕ, ◌&&◌, ◌==◌, ◌||◌,
}
use modular_hx_fastapi.Errors.{Failure, Result, invalid, ok, refuse_if, typed_failure, ◌>>◌}

abbrev pub invalid_input : String → Failure
invalid_input code = typed_failure invalid "invalid input" code

abbrev is_blank_unit : ℕ → Bool
is_blank_unit c = c == 32 || c == 9 || c == 13 || c == 10

abbrev bad_policy : Num → Num → Bool
bad_policy low high =
    not (is_safe_integer low) || not (is_safe_integer high) || below low 0 || less high low

unfoldable pub text : Text → Num → Num → Bool → Result (Unit {0}) Failure
text value low high required = do
  refuse_if (bad_policy low high) (invalid_input "validation.policy")
  refuse_if (has_lone_surrogate value) (invalid_input "validation.text")
  let n = length (characters value)
  refuse_if (less (nat n) low || less high (nat n) || (required && all is_blank_unit value))
      (invalid_input "validation.text")

unfoldable pub decimal : Text → Num → Num → Result ℕ Failure
decimal value low high = do
  refuse_if (bad_policy low high || above high 2147483647) (invalid_input "validation.policy")
  refuse_if (ltb 10 (length value) || not (is_decimal value)) (invalid_input "validation.decimal")
  let n = decimal_from 0 value
  refuse_if (less (nat n) low || less high (nat n)) (invalid_input "validation.decimal")
  ok n
