-- ===== src/Postgres/Mapping.antt =====
-- src/shared/postgres/index.ts: the configuration and the failures. What the URL parser and the driver say of
-- a value are arguments.
use modular_hx_fastapi.Common.{
  Bool, Num, Option, String, Text, [], above, below, if◌then◌else◌, is_integer, length, ltb, none,
  not, one_of, some, ℕ, ◌==◌, ◌is◌, ◌||◌, ◌∷◌,
}
use modular_hx_fastapi.Errors.{
  Failure, Kind, Result, Unknown, canceled, conflict, err, from_caught, internal, invalid, kind_of,
  refuse_if, timeout, typed_failure, unavailable,
}

-- The parts of a parsed URL that are tested.
pub record Url : Type 0 where
  pub protocol : Text
  pub hostname : Text
  pub hash : Text

abbrev pub database_config : Failure
database_config = typed_failure invalid "invalid database configuration" "database.config"

abbrev pub timed_out : Failure
timed_out = typed_failure timeout "database operation timed out" "database.timeout"

abbrev pub uncertain : Failure
uncertain =
    typed_failure unavailable "database commit outcome uncertain" "database.commit_uncertain"

abbrev pub drift : Failure
drift = typed_failure conflict "migration history differs" "database.migration_drift"

abbrev pub failed_with : Kind → String → Failure
failed_with kind type = typed_failure kind "database operation failed" type

abbrev pub canceled_operation : Failure
canceled_operation = typed_failure canceled "database operation canceled" "database.canceled"

abbrev pub database_closed : Failure
database_closed = typed_failure unavailable "database closed" "database.closed"

abbrev pub rolled_back_commit : Failure
rolled_back_commit = typed_failure internal "database transaction aborted" "database.failed"

abbrev pub out_of_range : Num → ℕ → ℕ → Bool
out_of_range n low high = not (is_integer n) || below n low || above n high

-- The tests of `Database.open`; `none` stands for a URL that does not parse.
unfoldable pub check_config : Option Url → Num → Num → Result (Unit {0}) Failure
check_config none max_connections timeout_ms = err database_config
check_config (some u) max_connections timeout_ms =
    refuse_if
      (not (one_of u.protocol ("postgres:" ∷ "postgresql:" ∷ []))
        || length u.hostname == 0
        || ltb 0 (length u.hash)
        || out_of_range max_connections 1 64
        || out_of_range timeout_ms 1 30000)
      database_config

-- The code of a `pg.DatabaseError`; `none` outside for any other value.
abbrev pub PgCode : Type 0
PgCode = Unknown → Option Text

abbrev pub map_code : Text → Failure
map_code code =
    if one_of code ("23505" ∷ "40001" ∷ "40P01" ∷ [])
    then failed_with conflict "database.conflict"
    else if code is "57014"
    then timed_out
    else failed_with internal "database.failed"

abbrev foreign : Option Text → Failure
foreign none = failed_with unavailable "database.unavailable"
foreign (some code) = map_code code

-- `map`.
unfoldable pub map_error_of : PgCode → Unknown → Failure
map_error_of pg_code error = elim (kind_of error) [
  | some k ↦ from_caught error
  | none ↦ foreign (pg_code error)
]

unfoldable pub commit_failure : PgCode → Unknown → Failure
commit_failure pg_code error = elim (pg_code error) [
  | some code ↦ map_error_of pg_code error
  | none ↦ uncertain
]
