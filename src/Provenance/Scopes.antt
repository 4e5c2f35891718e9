-- ===== src/Provenance/Scopes.antt =====
-- src/shared/provenance/scope.ts: one execution of a piece of work.
use modular_hx_fastapi.Common.{
  Bool, Num, Option, Text, above, below, equals, false, if◌then◌else◌, is_integer, leb,
  max_safe_integer, nat, neg, non_integer, none, not, same, some, true, ℕ, ◌&&◌, ◌is◌, ◌||◌,
}
use modular_hx_fastapi.Errors.{Failure, Result, err, ok, refuse_if, ◌>>=◌, ◌>>◌}
use modular_hx_fastapi.Provenance.Actors.{
  Actor, Reference, invalid_provenance, named_actor, valid_id,
}
use modular_hx_fastapi.Provenance.Works.{Work, WorkContext, max_ordinal, restore_work}

pub record ScopeSnapshot : Type 0 where
  pub work : Work
  pub scope_id : Text
  pub started_at : Num
  pub executor : Option Actor
  pub attempt : Num
  pub previous_attempt : Option Text

-- The time value of a date, if it has at most 48 bits.
unfoldable pub normalized_time : Num → Option ℕ
normalized_time (nat ms) =
    if leb ms max_safe_integer && leb ms 281474976710655 then some ms else none
normalized_time (neg n) = none
normalized_time non_integer = none

pub record Scope : Type 0 where
  pub known : Bool
  pub work_context : WorkContext
  pub scope_id : Text
  pub executor : Option Actor
  pub attempt : Num
  pub previous_attempt : Option Text
  pub started : ℕ

unfoldable pub snapshot : Scope → ScopeSnapshot
snapshot s = record {
  work = s.work_context.snapshot;
  scope_id = s.scope_id;
  started_at = nat s.started;
  executor = s.executor;
  attempt = s.attempt;
  previous_attempt = s.previous_attempt;
}

abbrev pub bad_attempt : Num → Bool
bad_attempt a = not (is_integer a) || below a 1 || above a max_ordinal

abbrev pub bad_previous : Text → Num → Option Text → Bool
bad_previous scope_id attempt none = false
bad_previous scope_id attempt (some p) = not (valid_id p) || same p scope_id || equals attempt 1

-- `causation?.kind === 'scope' && causation.id === scopeId`.
abbrev pub names_scope : Option Reference → Text → Bool
names_scope none scope_id = false
names_scope (some r) scope_id = r.kind is "scope" && same r.id scope_id

abbrev pub or_refuse {ℓ} : {A : Type ℓ} → Option A → Failure → Result A Failure
or_refuse none f = err f
or_refuse (some a) f = ok a

unfoldable pub restore_scope : ScopeSnapshot → Result Scope Failure
restore_scope s = do
  refuse_if (not (valid_id s.scope_id)) (invalid_provenance "invalid_scope")
  w ← restore_work s.work
  refuse_if (not (named_actor s.executor)) (invalid_provenance "invalid_actor")
  refuse_if (bad_attempt s.attempt) (invalid_provenance "invalid_attempt")
  refuse_if (bad_previous s.scope_id s.attempt s.previous_attempt)
      (invalid_provenance "invalid_scope")
  refuse_if (names_scope s.work.causation s.scope_id) (invalid_provenance "invalid_scope")
  ms ← or_refuse (normalized_time s.started_at) (invalid_provenance "invalid_time")
  ok (record {
    known = true;
    work_context = w;
    scope_id = s.scope_id;
    executor = s.executor;
    attempt = s.attempt;
    previous_attempt = s.previous_attempt;
    started = ms;
  })
