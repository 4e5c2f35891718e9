-- ===== src/Postgres/Migrating.antt =====
-- What the migrations leave behind (src/shared/postgres/index.ts).
use mathlib.Core.List.{append-nil}
use modular_hx_fastapi.Common.{
  Bool-cases, List, Text, [], ap, arith, false, inl, inr, length, ltb, map, nat, refl, same_iff,
  same_refl, string_of, subst, suc, sym, true, ◌++◌, ◌∙◌, ◌∷◌, ◌≡◌,
}
use modular_hx_fastapi.Errors.{Result-cases, ok}
use modular_hx_fastapi.Postgres.Migrations.{
  Applied, Migration, applied_row, check_versions, migrate, pending_after, same_row,
}

module _ (sha256 : Text → Text) where
  same_row-eq :
      (r : Applied) (m : Migration) → same_row sha256 r m ≡ true → r ≡ applied_row sha256 m
  same_row-eq r m h =
      let v : r.version ≡ string_of m.version =
        (same_iff r.version (string_of m.version)).0 (ground arith) in
      let c : r.checksum ≡ sha256 m.sql = (same_iff r.checksum (sha256 m.sql)).0 (ground arith) in
      ap (λ (x : Text). record r { version = x }) v
      ∙ ap (λ (x : Text). record { version = string_of m.version; checksum = x }) c

  same_row_self : (m : Migration) → same_row sha256 (applied_row sha256 m) m ≡ true
  same_row_self m = ground (arith, same_refl (string_of m.version), same_refl (sha256 m.sql))

  -- The rows belong to the first migrations, in order, and the rest is pending.
  pending_after-ok :
      (rows : List Applied) (ms pending : List Migration)
      → pending_after sha256 rows ms ≡ ok pending
      → rows ++ map (applied_row sha256) pending ≡ map (applied_row sha256) ms
  unfolding pending_after
  pending_after-ok [] ms pending h =
      let e : ms ≡ pending = ground arith in ap (map (applied_row sha256)) (sym e)
  pending_after-ok (r ∷ rs) [] pending h = absurd (ground arith)
  pending_after-ok (r ∷ rs) (m ∷ ms) pending h = elim (Bool-cases (same_row sha256 r m)) [
    | inl e ↦
        let rest = pending_after-ok rs ms pending (ground arith) in
        ap (λ (t : List Applied). r ∷ t) rest
        ∙ ap (λ (x : Applied). x ∷ map (applied_row sha256) ms) (same_row-eq r m e)
    | inr e ↦ absurd (ground arith)
  ]

  nothing_pending :
      (ms : List Migration) → pending_after sha256 (map (applied_row sha256) ms) ms ≡ ok []
  unfolding pending_after
  nothing_pending [] = refl
  nothing_pending (m ∷ ms) = ground (arith, same_row_self m, nothing_pending ms)

  length-map : (ms : List Migration) → length (map (applied_row sha256) ms) ≡ length ms
  length-map [] = refl
  length-map (m ∷ ms) = ap suc (length-map ms)

  pub record IsMigrated (ms : List Migration) (rows : List Applied) (pending : List Migration)
      (after : List Applied) : Type 0 where
    pub recorded : after ≡ map (applied_row sha256) ms
    pub kept : after ≡ rows ++ map (applied_row sha256) pending
    pub again : migrate sha256 ms after ≡ ok ([], after)

  migrate_parts :
      (ms : List Migration) (rows : List Applied) (pending : List Migration) (after : List Applied)
      → migrate sha256 ms rows ≡ ok (pending, after)
      → (check_versions (nat 0) ms ≡ ok tt)
        × (pending_after sha256 rows ms ≡ ok pending)
        × (after ≡ rows ++ map (applied_row sha256) pending)
  unfolding migrate
  migrate_parts ms rows pending after h = elim (Result-cases (pending_after sha256 rows ms)) [
    | inl (p, e) ↦
        let same_pending : p ≡ pending = ground arith in
        let same_after : rows ++ map (applied_row sha256) p ≡ after = ground arith in
        (
          ground arith,
          e ∙ ap ok same_pending,
          sym same_after
              ∙ ap (λ (q : List Migration). rows ++ map (applied_row sha256) q) same_pending,
        )
    | inr (f, e) ↦ absurd (ground arith)
  ]

  migrate_done :
      (ms : List Migration)
      → check_versions (nat 0) ms ≡ ok tt
      → migrate sha256 ms (map (applied_row sha256) ms) ≡ ok ([], map (applied_row sha256) ms)
  unfolding migrate
  migrate_done ms h =
      let few : ltb (length ms) (length (map (applied_row sha256) ms)) ≡ false =
        ground (arith, length-map ms) in
      rw (h, few, nothing_pending ms, append-nil)

  -- Migrations that succeed keep the rows that were there and leave one row for each migration, in order, with
  -- its version and checksum; migrating again succeeds, runs nothing and changes nothing.
  pub migrate-IsMigrated :
      (ms : List Migration) (rows : List Applied) (pending : List Migration) (after : List Applied)
      → migrate sha256 ms rows ≡ ok (pending, after)
      → IsMigrated ms rows pending after
  migrate-IsMigrated ms rows pending after h =
      let (v, p, e) = migrate_parts ms rows pending after h in
      let recorded = e ∙ pending_after-ok rows ms pending p in
      record {
        recorded = recorded;
        kept = e;
        again =
            subst (λ (a : List Applied). migrate sha256 ms a ≡ ok ([], a)) (sym recorded)
              (migrate_done ms v);
      }
