-- ===== src/Tests/Postgres.antt =====
-- Transactions and migrations of src/shared/postgres on concrete inputs.
use modular_hx_fastapi.Common.{
  List, Option, Text, [], codes, false, map, nat, none, refl, same, string_of, to_decimal, true, ℕ,
  ◌∷◌, ◌≡◌,
}
use modular_hx_fastapi.Errors.{Unknown, ok}
use modular_hx_fastapi.Postgres.{
  Applied, Event, Migration, applied_row, begun, check_versions, commit_answered, migrate, move_all,
  opened, pending_after, returned, stops,
}
use modular_hx_fastapi.Postgres.Outcomes.{IsTransaction}
use modular_hx_fastapi.Postgres.Races.{move_all-IsTransaction}
use modular_hx_fastapi.Postgres.Migrating.{IsMigrated, migrate-IsMigrated}

abbrev no_code : Unknown → Option Text
no_code u = none

-- The callback succeeds, and the caller stops while COMMIT is not answered.
abbrev stopped_late : List (Event ℕ)
stopped_late = begun ∷ returned (ok 7) ∷ stops true ∷ commit_answered true ∷ []

move_all-IsTransaction_example : IsTransaction (move_all no_code stopped_late (opened false))
move_all-IsTransaction_example = move_all-IsTransaction no_code false stopped_late

abbrev two_migrations : List Migration
two_migrations =
    record { version = nat 1; sql = codes "CREATE A" }
    ∷ record { version = nat 2; sql = codes "CREATE B" }
    ∷ []

abbrev first_applied : List Applied
first_applied = applied_row (λ t. t) (record { version = nat 1; sql = codes "CREATE A" }) ∷ []

abbrev second_pending : List Migration
second_pending = record { version = nat 2; sql = codes "CREATE B" } ∷ []

abbrev both_applied : List Applied
both_applied = map (applied_row (λ t. t)) two_migrations

did_migrate : migrate (λ t. t) two_migrations first_applied ≡ ok (second_pending, both_applied)
unfolding migrate check_versions pending_after same string_of to_decimal
did_migrate = refl

migrate-IsMigrated_example :
    IsMigrated (λ t. t) two_migrations first_applied second_pending both_applied
migrate-IsMigrated_example =
    migrate-IsMigrated (λ t. t) two_migrations first_applied second_pending both_applied did_migrate
