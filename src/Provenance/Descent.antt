-- ===== src/Provenance/Descent.antt =====
-- How child scopes and retries relate to the scope before them (src/shared/provenance/factory.ts).
use mathlib.Core.Option
use modular_hx_fastapi.Common.{
  Num, Option, Text, [], ap, arith, codes, false, increment, inl, inr, nat, none, same_refl, some,
  sym, true, ◌∙◌, ◌∷◌, ◌≡◌, ◌≢◌,
}
use modular_hx_fastapi.Errors.{Failure, Result, Result-cases, ok}
use modular_hx_fastapi.Provenance.Execution.{IsScope}
use modular_hx_fastapi.Provenance.Lineage.{emit-ok, fill_in-IsWork, or_id-HasId}
use modular_hx_fastapi.Provenance.Actors.{Actor, Reference, reference}
use modular_hx_fastapi.Provenance.Scopes.{Scope, snapshot}
use modular_hx_fastapi.Provenance.Factories.{
  StepSpec, bad_child_id, child, child_cause, child_forbidden, child_work, fill_in, is_forbidden,
  next_depth, or_id, retry,
}
use modular_hx_fastapi.Provenance.Validity.{HasId}
use modular_hx_fastapi.Provenance.Works.{Work}

-- The cause that a child records.
abbrev pub cause_or_scope : Text → Option Reference → Reference
cause_or_scope scope_id none = record { known = true; kind = codes "scope"; id = scope_id }
cause_or_scope scope_id (some r) = r

abbrev inherited : Work → Option Text → Text → Reference → Work
inherited w work_id op r = record w {
  work_id = work_id;
  operation = op;
  depth = Option.map increment w.depth;
  causation = some r;
}

next_depth-ok : (d e : Option Num) → next_depth d ≡ ok e → e ≡ Option.map increment d
unfolding next_depth
next_depth-ok none e h = ground arith
next_depth-ok (some d) e h = ground arith

child_cause-ok :
    (id : Text) (c : Option Reference) (r : Reference)
    → child_cause id c ≡ ok r
    → r ≡ cause_or_scope id c
unfolding child_cause reference
child_cause-ok id none r h = ground arith
child_cause-ok id (some c) r h = ground arith

child_work-ok :
    (parent : Scope) (work_id : Option Text) (op : Text) (cause : Option Reference) (w : Work)
    → child_work parent work_id op cause ≡ ok w
    → (w ≡ inherited parent.work_context.snapshot work_id op (cause_or_scope parent.scope_id cause))
      × (bad_child_id work_id parent.work_context.snapshot.work_id ≡ false)
unfolding child_work snapshot
child_work-ok parent work_id op cause w h =
    elim (Result-cases (next_depth parent.work_context.snapshot.depth)) [
      | inr (f, e) ↦ absurd (ground arith)
      | inl (d, e) ↦ elim (Result-cases (child_cause parent.scope_id cause)) [
        | inr (f, k) ↦ absurd (ground arith)
        | inl (r, k) ↦ (
          ground (arith, next_depth-ok _ d e, child_cause-ok parent.scope_id cause r k),
          ground arith,
        )
      ]
    ]

fresh_child_id :
    (work_id : Option Text) (parent : Scope) (id : Text)
    → HasId parent.work_context.snapshot.work_id
    → bad_child_id work_id parent.work_context.snapshot.work_id ≡ false
    → is_forbidden id (child_forbidden parent work_id) ≡ false
    → or_id work_id id ≢ parent.work_context.snapshot.work_id
fresh_child_id none parent id (own, e, valid) h k f = ground (arith, same_refl own)
fresh_child_id (some w) parent id (own, e, valid) h k f = ground (arith, same_refl own)

fresh_child_scope :
    (work_id : Option Text) (parent : Scope) (id : Text)
    → is_forbidden id (child_forbidden parent work_id) ≡ false
    → id ≢ parent.scope_id
fresh_child_scope none parent id k f = ground (arith, same_refl id)
fresh_child_scope (some w) parent id k f = ground (arith, same_refl id)

module _ {G : Type 0} (new_id : G → Result Text Failure × G) (now : Num) where
  -- The lineage of a child: a new scope and a piece of work of its own in its parent's chain, one step
  -- deeper, caused by the parent's scope unless another cause is given.
  pub record IsChild (parent : Scope) (s : StepSpec) (t : Scope) : Type 0 where
    pub valid : IsScope t
    pub fresh_scope : t.scope_id ≢ parent.scope_id
    pub work_id : t.work_context.snapshot.work_id ≡ or_id s.work_id t.scope_id
    pub fresh_work : t.work_context.snapshot.work_id ≢ parent.work_context.snapshot.work_id
    pub correlation :
        t.work_context.snapshot.correlation_id ≡ parent.work_context.snapshot.correlation_id
    pub attribution : t.work_context.snapshot.attribution ≡ parent.work_context.snapshot.attribution
    pub operation : t.work_context.snapshot.operation ≡ s.operation
    pub depth :
        t.work_context.snapshot.depth ≡ Option.map increment parent.work_context.snapshot.depth
    pub causation :
        t.work_context.snapshot.causation ≡ some (cause_or_scope parent.scope_id s.cause)
    pub first : (t.attempt ≡ nat 1) × (t.previous_attempt ≡ none)
    pub executor : t.executor ≡ s.executor
    pub time : now ≡ nat t.started

  -- The work of an attempt that follows another one is the same work.
  pub record IsRetry (previous : Scope) (executor : Option Actor) (t : Scope) : Type 0 where
    pub valid : IsScope t
    pub fresh_scope : t.scope_id ≢ previous.scope_id
    pub work : t.work_context.snapshot ≡ previous.work_context.snapshot
    pub attempt : t.attempt ≡ increment previous.attempt
    pub previous_attempt : t.previous_attempt ≡ some previous.scope_id
    pub executor_given : t.executor ≡ executor
    pub time : now ≡ nat t.started

  -- A retry of a well-formed scope runs the same work again, in a new scope that names the one before it,
  -- with the next ordinal.
  pub retry-IsRetry :
      (previous : Scope) (executor : Option Actor) (g : G) (t : Scope)
      → IsScope previous
      → (retry new_id now previous executor g).0 ≡ ok t
      → IsRetry previous executor t
  unfolding retry
  retry-IsRetry previous executor g t v h =
      let i =
        emit-ok new_id now previous.work_context.snapshot executor (increment previous.attempt)
          (some previous.scope_id) (previous.scope_id ∷ []) g t (ground (arith, v.known)) in
      record {
        valid = i.valid;
        fresh_scope = λ e. ground (arith, i.allowed, same_refl t.scope_id);
        work = i.work ∙ fill_in-IsWork previous.work_context.snapshot t.scope_id v.work;
        attempt = i.attempt_kept;
        previous_attempt = i.previous_kept;
        executor_given = i.executor_kept;
        time = i.time;
      }

  made-IsChild :
      (parent : Scope) (s : StepSpec) (t : Scope)
      → IsScope parent
      → bad_child_id s.work_id parent.work_context.snapshot.work_id ≡ false
      → t.work_context.snapshot
        ≡ fill_in
            (inherited parent.work_context.snapshot s.work_id s.operation
              (cause_or_scope parent.scope_id s.cause))
            t.scope_id
      → IsScope t
      → is_forbidden t.scope_id (child_forbidden parent s.work_id) ≡ false
      → (t.attempt ≡ nat 1) × (t.previous_attempt ≡ none)
      → t.executor ≡ s.executor
      → now ≡ nat t.started
      → IsChild parent s t
  unfolding fill_in
  made-IsChild parent s t v proper e valid allowed first executor time = record {
    valid = valid;
    fresh_scope = fresh_child_scope s.work_id parent t.scope_id allowed;
    work_id = ap (λ (w : Work). w.work_id) e;
    fresh_work = λ k.
        fresh_child_id s.work_id parent t.scope_id v.work.work proper allowed
          (sym (ap (λ (w : Work). w.work_id) e) ∙ k);
    correlation =
        ap (λ (w : Work). w.correlation_id) e
        ∙ or_id-HasId parent.work_context.snapshot.correlation_id t.scope_id v.work.correlation;
    attribution = ap (λ (w : Work). w.attribution) e;
    operation = ap (λ (w : Work). w.operation) e;
    depth = ap (λ (w : Work). w.depth) e;
    causation = ap (λ (w : Work). w.causation) e;
    first = first;
    executor = executor;
    time = time;
  }

  -- A child of a well-formed scope keeps its correlation and attribution, is one step deeper, has a scope
  -- and a piece of work of its own, and records the given cause or the parent's scope.
  pub child-IsChild :
      (parent : Scope) (s : StepSpec) (g : G) (t : Scope)
      → IsScope parent
      → (child new_id now parent s g).0 ≡ ok t
      → IsChild parent s t
  unfolding child
  child-IsChild parent s g t v h =
      elim (Result-cases (child_work parent s.work_id s.operation s.cause)) [
        | inr (f, e) ↦ absurd (ground arith)
        | inl (w, e) ↦
            let (made, proper) = child_work-ok parent s.work_id s.operation s.cause w e in
            let i =
              emit-ok new_id now w s.executor (nat 1) none (child_forbidden parent s.work_id) g t
                (ground arith) in
            made-IsChild parent s t v proper (i.work ∙ ap (λ (x : Work). fill_in x t.scope_id) made)
              i.valid i.allowed (i.attempt_kept, i.previous_kept) i.executor_kept i.time
      ]
