-- ===== src/Provenance/Works.antt =====
-- src/shared/provenance/work.ts: the record of one piece of logical work and its validation. A missing
-- identifier of a draft is `none`, as in a snapshot that was cast.
use modular_hx_fastapi.Common.{
  Bool, Num, Option, Text, [], above, below, equals, false, is_integer, none, not, one_of, same,
  some, true, ℕ, ◌&&◌, ◌is◌, ◌||◌, ◌∷◌,
}
use modular_hx_fastapi.Errors.{Failure, Result, ok, refuse_if, ◌>>◌}
use modular_hx_fastapi.Provenance.Actors.{
  Attribution, Reference, invalid_provenance, is_some, valid_id, valid_operation,
}

pub record Replay : Type 0 where
  pub run_id : Option Text
  pub source : Reference

pub record Work : Type 0 where
  pub work_id : Option Text
  pub correlation_id : Option Text
  pub correlation_source : Text
  pub causation : Option Reference
  pub origin : Option Text
  pub operation : Text
  pub attribution : Attribution
  pub depth : Option Num
  pub replay : Option Replay

abbrev pub valid_origin : Text → Bool
valid_origin v = one_of v ("request" ∷ "schedule" ∷ "replay" ∷ "backfill" ∷ "startup" ∷ [])

-- `id === undefined ? !defaults : !validID(id)`.
abbrev pub bad_id : Bool → Option Text → Bool
bad_id defaults none = not defaults
bad_id defaults (some id) = not (valid_id id)

-- `origin !== undefined && !validOrigin(origin)`.
abbrev pub bad_origin : Option Text → Bool
bad_origin none = false
bad_origin (some o) = not (valid_origin o)

abbrev pub is_replay : Option Text → Bool
is_replay none = false
is_replay (some o) = o is "replay"

-- `r.kind === 'work' && r.id === w.workId`.
abbrev pub names_work : Reference → Option Text → Bool
names_work r none = false
names_work r (some id) = r.kind is "work" && same r.id id

abbrev pub max_ordinal : ℕ
max_ordinal = 4294967295

unfoldable pub check_causation : Option Text → Option Reference → Result (Unit {0}) Failure
check_causation work_id none = ok tt
check_causation work_id (some r) = do
  refuse_if (not r.known) (invalid_provenance "invalid_reference")
  refuse_if (names_work r work_id) (invalid_provenance "invalid_work")

abbrev pub bad_depth : Text → Bool → Num → Bool
bad_depth source caused d =
    not (is_integer d)
    || below d 0
    || above d max_ordinal
    || (source is "local" && equals d 0 && caused)
    || (above d 0 && not caused)

unfoldable pub check_depth : Text → Option Reference → Option Num → Result (Unit {0}) Failure
check_depth source causation none = ok tt
check_depth source causation (some d) =
    refuse_if (bad_depth source (is_some causation) d) (invalid_provenance "invalid_depth")

unfoldable pub check_replay : Option Text → Bool → Option Replay → Result (Unit {0}) Failure
check_replay work_id defaults none = ok tt
check_replay work_id defaults (some r) = do
  refuse_if (not r.source.known || bad_id defaults r.run_id)
      (invalid_provenance "invalid_reference")
  refuse_if (names_work r.source work_id) (invalid_provenance "invalid_work")

abbrev pub bad_identity : Work → Bool → Bool
bad_identity w defaults =
    bad_id defaults w.work_id
    || bad_id defaults w.correlation_id
    || not (one_of w.correlation_source ("local" ∷ "external" ∷ []))

-- `a !== b`.
abbrev pub differ : Bool → Bool → Bool
differ true b = not b
differ false b = b

abbrev pub replay_mismatch : Work → Bool
replay_mismatch w = differ (is_some w.replay) (is_replay w.origin)

-- `validateWork`: `ok tt` stands for `undefined`, `err f` for the failure that it returns.
unfoldable pub validate_work : Work → Bool → Result (Unit {0}) Failure
validate_work w defaults = do
  refuse_if (bad_identity w defaults) (invalid_provenance "invalid_work")
  refuse_if (not (valid_operation w.operation)) (invalid_provenance "invalid_operation")
  refuse_if (not w.attribution.known) (invalid_provenance "invalid_attribution")
  refuse_if (bad_origin w.origin) (invalid_provenance "invalid_origin")
  refuse_if (replay_mismatch w) (invalid_provenance "invalid_origin")
  check_causation w.work_id w.causation
  check_depth w.correlation_source w.causation w.depth
  check_replay w.work_id defaults w.replay

pub record WorkContext : Type 0 where
  pub known : Bool
  pub snapshot : Work

unfoldable pub restore_work : Work → Result WorkContext Failure
restore_work w = do validate_work w false; ok (record { known = true; snapshot = w })
