-- ===== src/Postgres/Migrations.antt =====
-- src/shared/postgres/index.ts: `migrate`, with the checksum of a text as an argument.
use modular_hx_fastapi.Common.{
  Bool, List, Num, Text, [], false, is_safe_integer, length, less, ltb, map, nat, not, same,
  string_of, true, ◌&&◌, ◌++◌, ◌==◌, ◌||◌, ◌∷◌,
}
use modular_hx_fastapi.Errors.{Failure, Result, err, ok, refuse_if, ◌>>=◌, ◌>>◌}
use modular_hx_fastapi.Postgres.Mapping.{database_config, drift}

pub record Migration : Type 0 where
  pub version : Num
  pub sql : Text

-- A row of the table of migrations.
pub record Applied : Type 0 where
  pub version : Text
  pub checksum : Text

-- The loop before the transaction.
unfoldable pub check_versions : Num → List Migration → Result (Unit {0}) Failure
check_versions previous [] = ok tt
check_versions previous (m ∷ ms) = do
  refuse_if (not (is_safe_integer m.version) || not (less previous m.version) || length m.sql == 0)
      database_config
  check_versions m.version ms

module _ (sha256 : Text → Text) where
  abbrev pub applied_row : Migration → Applied
  applied_row m = record { version = string_of m.version; checksum = sha256 m.sql }

  abbrev pub same_row : Applied → Migration → Bool
  same_row r m = same r.version (string_of m.version) && same r.checksum (sha256 m.sql)

  -- The loop of the transaction: the migrations that it runs and records, in order.
  unfoldable pub pending_after : List Applied → List Migration → Result (List Migration) Failure
  pending_after [] ms = ok ms
  pending_after (r ∷ rs) [] = err drift
  pending_after (r ∷ rs) (m ∷ ms) = elim (same_row r m) [
    | true ↦ pending_after rs ms
    | false ↦ err drift
  ]

  -- The rows after `migrate`, and the migrations that it ran.
  unfoldable pub migrate :
      List Migration → List Applied → Result (List Migration × List Applied) Failure
  migrate ms rows = do
    check_versions (nat 0) ms
    refuse_if (ltb (length ms) (length rows)) drift
    pending ← pending_after rows ms
    ok (pending, rows ++ map applied_row pending)
