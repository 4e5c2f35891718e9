-- ===== src/Provenance/Factories.antt =====
-- src/shared/provenance/factory.ts: new scopes from roots, parents, prepared work, earlier attempts,
-- replays and requests.
use modular_hx_fastapi.Common.{
  Bool, List, Num, Option, Text, [], any, codes, equals, false, if◌then◌else◌, increment, nat, none,
  not, same, some, true, ℕ, ◌is◌, ◌||◌, ◌∷◌,
}
use modular_hx_fastapi.Errors.{
  Failure, Result, err, internal, ok, refuse_if, typed_failure, ◌>>=◌, ◌>>◌,
}
use modular_hx_fastapi.Provenance.Actors.{
  Actor, Attribution, Reference, invalid_provenance, named_actor, reference, same_option, valid_id,
}
use modular_hx_fastapi.Provenance.Works.{
  Replay, Work, WorkContext, bad_id, max_ordinal, names_work, restore_work, valid_origin,
  validate_work,
}
use modular_hx_fastapi.Provenance.Scopes.{
  Scope, bad_attempt, normalized_time, or_refuse, restore_scope, snapshot,
}
use modular_hx_fastapi.Provenance.Incoming.{
  Disposition, IncomingResult, continued, fresh, restarted,
}

pub record RootSpec : Type 0 where
  pub work_id : Option Text
  pub origin : Text
  pub operation : Text
  pub attribution : Attribution
  pub executor : Option Actor

pub record StepSpec : Type 0 where
  pub work_id : Option Text
  pub operation : Text
  pub executor : Option Actor
  pub cause : Option Reference

pub record WorkSpec : Type 0 where
  pub work_id : Text
  pub operation : Text
  pub cause : Option Reference

pub record ReplaySpec : Type 0 where
  pub source : Reference
  pub run_id : Option Text
  pub work_id : Option Text
  pub operation : Text
  pub attribution : Attribution
  pub executor : Option Actor

abbrev pub generated_error : Failure
generated_error =
    typed_failure internal "invalid generated provenance ID" "provenance.invalid_generated_id"

unfoldable pub root_work : RootSpec → Result Work Failure
root_work s = do
  refuse_if (not (valid_origin s.origin) || s.origin is "replay")
      (invalid_provenance "invalid_origin")
  refuse_if (bad_id true s.work_id) (invalid_provenance "invalid_work")
  ok (record {
    work_id = s.work_id;
    correlation_id = none;
    correlation_source = codes "local";
    causation = none;
    origin = some s.origin;
    operation = s.operation;
    attribution = s.attribution;
    depth = some (nat 0);
    replay = none;
  })

-- `workId !== undefined && (!validID(workId) || workId === parent.workId)`.
abbrev pub bad_child_id : Option Text → Option Text → Bool
bad_child_id none parent = false
bad_child_id (some id) parent = not (valid_id id) || same_option (some id) parent

-- The depth of the child; `none` inside stands for a depth at its limit.
unfoldable pub next_depth : Option Num → Result (Option Num) Failure
next_depth none = ok none
next_depth (some d) =
    if equals d max_ordinal
    then err (invalid_provenance "depth_exhausted")
    else ok (some (increment d))

unfoldable pub child_cause : Text → Option Reference → Result Reference Failure
child_cause scope_id none = reference (codes "scope") scope_id
child_cause scope_id (some r) = ok r

unfoldable pub child_work : Scope → Option Text → Text → Option Reference → Result Work Failure
child_work parent work_id op cause = do
  refuse_if (not parent.known) (invalid_provenance "invalid_scope")
  let s = snapshot parent
  refuse_if (bad_child_id work_id s.work.work_id) (invalid_provenance "invalid_work")
  depth ← next_depth s.work.depth
  causation ← child_cause s.scope_id cause
  let w = record (s.work) {
    work_id = work_id;
    operation = op;
    depth = depth;
    causation = some causation;
  }
  validate_work w true
  ok w

unfoldable pub prepare : Scope → WorkSpec → Result WorkContext Failure
prepare parent s = do
  refuse_if (not parent.known) (invalid_provenance "invalid_scope")
  refuse_if (not (valid_id s.work_id)) (invalid_provenance "invalid_work")
  w ← child_work parent (some s.work_id) s.operation s.cause
  restore_work w

abbrev pub or_id : Option Text → Text → Option Text
or_id none id = some id
or_id (some t) id = some t

abbrev pub fill_replay : Option Replay → Text → Option Replay
fill_replay none id = none
fill_replay (some r) id = some (record r { run_id = or_id r.run_id id })

-- The work with every missing identifier set to the one of the new scope.
unfoldable pub fill_in : Work → Text → Work
fill_in w id = record w {
  work_id = or_id w.work_id id;
  correlation_id = or_id w.correlation_id id;
  replay = fill_replay w.replay id;
}

abbrev pub is_forbidden : Text → List Text → Bool
is_forbidden id forbidden_ids = any (λ f. same f id) forbidden_ids

-- What is tested before an identifier is drawn; the result is the time of the new scope.
unfoldable pub checked : Work → Option Actor → Num → Num → Result ℕ Failure
checked w executor attempt now = do
  refuse_if (not (named_actor executor)) (invalid_provenance "invalid_actor")
  refuse_if (bad_attempt attempt) (invalid_provenance "invalid_attempt")
  validate_work w true
  or_refuse (normalized_time now) (invalid_provenance "invalid_time")

abbrev pub generated {ℓ} : {A : Type ℓ} → Result A Failure → Result A Failure
generated (ok a) = ok a
generated (err f) = err generated_error

-- The part after the identifier is drawn.
unfoldable pub finish :
    Work
    → Option Actor
    → Num
    → Option Text
    → List Text
    → ℕ
    → Result Text Failure
    → Result Scope Failure
finish w executor attempt previous forbidden_ids ms next = do
  scope_id ← next
  refuse_if (not (valid_id scope_id) || is_forbidden scope_id forbidden_ids) generated_error
  generated (
      restore_scope (record {
        work = fill_in w scope_id;
        scope_id = scope_id;
        started_at = nat ms;
        executor = executor;
        attempt = attempt;
        previous_attempt = previous;
      }))

-- `forbidden` of `child`: the parent's scope, and its work if the child names none.
abbrev pub child_forbidden : Scope → Option Text → List Text
child_forbidden parent (some id) = parent.scope_id ∷ []
child_forbidden parent none = elim parent.work_context.snapshot.work_id [
  | none ↦ parent.scope_id ∷ []
  | some id ↦ parent.scope_id ∷ id ∷ []
]

abbrev pub bad_replay_work : Reference → Option Text → Bool
bad_replay_work source none = false
bad_replay_work source (some id) = not (valid_id id) || names_work source (some id)

-- The work of a request: a continued one keeps the caller's correlation and cause.
abbrev pub entered : Disposition → Option Text → Option Reference → Work → Work
entered fresh correlation cause w = w
entered restarted correlation cause w = w
entered continued correlation cause w = record w {
  correlation_id = correlation;
  correlation_source = codes "external";
  causation = cause;
  origin = none;
  depth = none;
}

abbrev pub entering : IncomingResult → Result Work Failure → Result Work Failure
entering i (err f) = err f
entering i (ok w) = ok (entered i.decision i.correlation i.cause w)

-- The generator of the factory with its state, and the reading of the clock during the call.
module _ {G : Type 0} (new_id : G → Result Text Failure × G) (now : Num) where
  unfoldable pub emit :
      Work → Option Actor → Num → Option Text → List Text → G → Result Scope Failure × G
  emit w executor attempt previous forbidden_ids g = elim (checked w executor attempt now) [
    | err f ↦ (err f, g)
    | ok ms ↦
        let (next, g') = new_id g in (finish w executor attempt previous forbidden_ids ms next, g')
  ]

  abbrev pub emitting :
      Result Work Failure → Option Actor → List Text → G → Result Scope Failure × G
  emitting (err f) executor forbidden_ids g = (err f, g)
  emitting (ok w) executor forbidden_ids g = emit w executor (nat 1) none forbidden_ids g

  unfoldable pub open_root : RootSpec → G → Result Scope Failure × G
  open_root s g = emitting (root_work s) s.executor [] g

  unfoldable pub child : Scope → StepSpec → G → Result Scope Failure × G
  child parent s g =
      emitting (child_work parent s.work_id s.operation s.cause) s.executor
        (child_forbidden parent s.work_id) g

  unfoldable pub execute : WorkContext → Option Actor → Num → G → Result Scope Failure × G
  execute work executor attempt g =
      if work.known
      then emit work.snapshot executor attempt none [] g
      else (err (invalid_provenance "invalid_work"), g)

  unfoldable pub retry : Scope → Option Actor → G → Result Scope Failure × G
  retry previous executor g =
      if not previous.known
      then (err (invalid_provenance "invalid_scope"), g)
      else if equals previous.attempt max_ordinal
      then (err (invalid_provenance "attempt_exhausted"), g)
      else emit previous.work_context.snapshot executor (increment previous.attempt)
          (some previous.scope_id) (previous.scope_id ∷ []) g

  unfoldable pub replay : ReplaySpec → G → Result Scope Failure × G
  replay s g =
      if not s.source.known || bad_id true s.run_id
      then (err (invalid_provenance "invalid_reference"), g)
      else if bad_replay_work s.source s.work_id
      then (err (invalid_provenance "invalid_work"), g)
      else emit
          (record {
            work_id = s.work_id;
            correlation_id = none;
            correlation_source = codes "local";
            causation = none;
            origin = some (codes "replay");
            operation = s.operation;
            attribution = s.attribution;
            depth = some (nat 0);
            replay = some (record { run_id = s.run_id; source = s.source });
          })
          s.executor (nat 1) none (if s.source.kind is "scope" then s.source.id ∷ [] else []) g

  unfoldable pub enter : RootSpec → IncomingResult → G → Result Scope Failure × G
  enter s i g =
      if not i.known
      then (err (invalid_provenance "invalid_incoming_result"), g)
      else emitting (entering i (root_work s)) s.executor [] g
