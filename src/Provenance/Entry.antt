-- ===== src/Provenance/Entry.antt =====
-- Scopes with no parent: roots, replays and requests from outside (src/shared/provenance/factory.ts and
-- incoming.ts).
use modular_hx_fastapi.Common.{
  Bool-cases, List, Num, Option, Text, [], ap, arith, codes, inl, inr, nat, none, refl, same, some,
  subst, sym, ◌∙◌, ◌≡◌,
}
use modular_hx_fastapi.Errors.{Failure, Result, Result-cases, err, ok}
use modular_hx_fastapi.Provenance.Execution.{IsScope}
use modular_hx_fastapi.Provenance.Lineage.{IsEmitted, emit-ok}
use modular_hx_fastapi.Provenance.Actors.{Actor, Reference}
use modular_hx_fastapi.Provenance.Works.{Work}
use modular_hx_fastapi.Provenance.Scopes.{Scope}
use modular_hx_fastapi.Provenance.Incoming.{
  Disposition, IncomingResult, continued, fresh, restarted,
}
use modular_hx_fastapi.Provenance.Factories.{
  RootSpec, emitting, enter, entered, entering, fill_in, fill_replay, open_root, or_id, replay,
  root_work,
}

-- The work of a root.
abbrev rooted : RootSpec → Work
rooted s = record {
  work_id = s.work_id;
  correlation_id = none;
  correlation_source = codes "local";
  causation = none;
  origin = some s.origin;
  operation = s.operation;
  attribution = s.attribution;
  depth = some (nat 0);
  replay = none;
}

root_work-ok : (s : RootSpec) (w : Work) → root_work s ≡ ok w → w ≡ rooted s
unfolding root_work
root_work-ok s w h = ground arith

-- The correlation accepted, or the identifier of the scope.
abbrev pub or_scope : Option Text → Text → Text
or_scope none id = id
or_scope (some t) id = t

or_id_scope : (c : Option Text) (id : Text) → or_id c id ≡ some (or_scope c id)
or_id_scope none id = refl
or_id_scope (some t) id = refl

entered_ok :
    (i : IncomingResult) (a w : Work)
    → entering i (ok a) ≡ ok w
    → w ≡ entered i.decision i.correlation i.cause a
entered_ok i a w h = ground arith

refused : (i : IncomingResult) (f : Failure) (w : Work) → entering i (err f) ≡ ok w → ⊥
refused i f w h = ground arith

module _ {G : Type 0} (new_id : G → Result Text Failure × G) (now : Num) where
  -- What every scope with no parent has.
  pub record IsEntry (s : RootSpec) (t : Scope) : Type 0 where
    pub valid : IsScope t
    pub work_id : t.work_context.snapshot.work_id ≡ or_id s.work_id t.scope_id
    pub attribution : t.work_context.snapshot.attribution ≡ s.attribution
    pub operation : t.work_context.snapshot.operation ≡ s.operation
    pub replay : t.work_context.snapshot.replay ≡ none
    pub first : (t.attempt ≡ nat 1) × (t.previous_attempt ≡ none)
    pub executor : t.executor ≡ s.executor
    pub time : now ≡ nat t.started

  -- A chain of its own: the correlation is the scope itself, with no cause and depth 0.
  abbrev pub StartsChain : Text → Scope → Type 0
  StartsChain origin t =
      (t.work_context.snapshot.correlation_id ≡ some t.scope_id)
      × (t.work_context.snapshot.correlation_source ≡ codes "local")
      × (t.work_context.snapshot.causation ≡ none)
      × (t.work_context.snapshot.depth ≡ some (nat 0))
      × (t.work_context.snapshot.origin ≡ some origin)

  -- A chain that a caller outside began: nothing is claimed of its origin and depth.
  abbrev pub ContinuesChain : Text → Option Reference → Scope → Type 0
  ContinuesChain id cause t =
      (t.work_context.snapshot.correlation_id ≡ some id)
      × (t.work_context.snapshot.correlation_source ≡ codes "external")
      × (t.work_context.snapshot.causation ≡ cause)
      × (t.work_context.snapshot.depth ≡ none)
      × (t.work_context.snapshot.origin ≡ none)

  emitting-ok :
      (r : Result Work Failure) (executor : Option Actor) (barred : List Text) (g : G) (t : Scope)
      → (emitting new_id now r executor barred g).0 ≡ ok t
      → (w : Work) × (r ≡ ok w) × IsEmitted new_id now w executor (nat 1) none barred g t
  emitting-ok (err f) executor barred g t h = cc
  emitting-ok (ok w) executor barred g t h =
      (w, refl, emit-ok new_id now w executor (nat 1) none barred g t h)

  entry_of :
      (s : RootSpec) (w : Work) (g : G) (t : Scope)
      → w.work_id ≡ s.work_id
      → w.attribution ≡ s.attribution
      → w.operation ≡ s.operation
      → w.replay ≡ none
      → IsEmitted new_id now w s.executor (nat 1) none [] g t
      → IsEntry s t
  unfolding fill_in
  entry_of s w g t own attributed op replay i = record {
    valid = i.valid;
    work_id = ap (λ (w : Work). w.work_id) i.work ∙ ap (λ o. or_id o t.scope_id) own;
    attribution = ap (λ (w : Work). w.attribution) i.work ∙ attributed;
    operation = ap (λ (w : Work). w.operation) i.work ∙ op;
    replay = ap (λ (w : Work). w.replay) i.work ∙ ap (λ r. fill_replay r t.scope_id) replay;
    first = (i.attempt_kept, i.previous_kept);
    executor = i.executor_kept;
    time = i.time;
  }

  started :
      (s : RootSpec) (w : Work) (g : G) (t : Scope)
      → w ≡ rooted s
      → IsEmitted new_id now w s.executor (nat 1) none [] g t
      → IsEntry s t × StartsChain s.origin t
  unfolding fill_in
  started s w g t same i =
      let same_work = i.work ∙ ap (λ (x : Work). fill_in x t.scope_id) same in
      (
        entry_of s w g t (ap (λ (x : Work). x.work_id) same) (ap (λ (x : Work). x.attribution) same)
            (ap (λ (x : Work). x.operation) same) (ap (λ (x : Work). x.replay) same) i,
        (
          ap (λ (x : Work). x.correlation_id) same_work,
          ap (λ (x : Work). x.correlation_source) same_work,
          ap (λ (x : Work). x.causation) same_work,
          ap (λ (x : Work). x.depth) same_work,
          ap (λ (x : Work). x.origin) same_work,
        ),
      )

  -- A root scope starts a chain of its own: whenever the factory makes one, it is well-formed, has the
  -- given work, operation, attribution and executor and the time of the clock, is a first attempt, and
  -- has itself as correlation, no cause and depth 0.
  pub open_root-StartsChain :
      (s : RootSpec) (g : G) (t : Scope)
      → (open_root new_id now s g).0 ≡ ok t
      → IsEntry s t × StartsChain s.origin t
  unfolding open_root
  open_root-StartsChain s g t h =
      let (w, made, i) = emitting-ok (root_work s) s.executor [] g t h in
      started s w g t (root_work-ok s w made) i

  -- The work of a request, by the decision on its hints.
  abbrev taken_over : RootSpec → Option Text → Option Reference → Work
  taken_over s correlation cause = record (rooted s) {
    correlation_id = correlation;
    correlation_source = codes "external";
    causation = cause;
    origin = none;
    depth = none;
  }

  taken_over-ContinuesChain :
      (s : RootSpec) (correlation : Option Text) (cause : Option Reference) (w : Work) (g : G)
      (t : Scope)
      → w ≡ taken_over s correlation cause
      → IsEmitted new_id now w s.executor (nat 1) none [] g t
      → IsEntry s t × ContinuesChain (or_scope correlation t.scope_id) cause t
  unfolding fill_in
  taken_over-ContinuesChain s correlation cause w g t same i =
      let same_work = i.work ∙ ap (λ (x : Work). fill_in x t.scope_id) same in
      (
        entry_of s w g t (ap (λ (x : Work). x.work_id) same) (ap (λ (x : Work). x.attribution) same)
            (ap (λ (x : Work). x.operation) same) (ap (λ (x : Work). x.replay) same) i,
        (
          ap (λ (x : Work). x.correlation_id) same_work ∙ or_id_scope correlation t.scope_id,
          ap (λ (x : Work). x.correlation_source) same_work,
          ap (λ (x : Work). x.causation) same_work,
          ap (λ (x : Work). x.depth) same_work,
          ap (λ (x : Work). x.origin) same_work,
        ),
      )

  -- The chain of a request, by the decision on its hints.
  abbrev pub Entered : Text → Disposition → Option Text → Option Reference → Scope → Type 0
  Entered origin continued correlation cause t =
      ContinuesChain (or_scope correlation t.scope_id) cause t
  Entered origin fresh correlation cause t = StartsChain origin t
  Entered origin restarted correlation cause t = StartsChain origin t

  entered_of :
      (s : RootSpec) (d : Disposition) (correlation : Option Text) (cause : Option Reference)
      (w : Work) (g : G) (t : Scope)
      → w ≡ entered d correlation cause (rooted s)
      → IsEmitted new_id now w s.executor (nat 1) none [] g t
      → IsEntry s t × Entered s.origin d correlation cause t
  entered_of s continued correlation cause w g t same i =
      taken_over-ContinuesChain s correlation cause w g t same i
  entered_of s fresh correlation cause w g t same i = started s w g t same i
  entered_of s restarted correlation cause w g t same i = started s w g t same i

  entering-ok :
      (s : RootSpec) (i : IncomingResult) (w : Work)
      → entering i (root_work s) ≡ ok w
      → w ≡ entered i.decision i.correlation i.cause (rooted s)
  entering-ok s i w h = elim (Result-cases (root_work s)) [
    | inl (a, e) ↦
        let k = root_work-ok s a e in
        subst (λ (x : Work). w ≡ entered i.decision i.correlation i.cause x) k
          (entered_ok i a w (sym (ap (entering i) e) ∙ h))
    | inr (f, e) ↦ absurd (refused i f w (sym (ap (entering i) e) ∙ h))
  ]

  -- A scope of a request is well-formed, has the given work, operation, attribution and executor and is a
  -- first attempt. It keeps the caller's correlation and cause exactly if the hints are continued, and
  -- then claims no depth and no origin; otherwise it starts a chain of its own.
  pub enter-Entered :
      (s : RootSpec) (i : IncomingResult) (g : G) (t : Scope)
      → (enter new_id now s i g).0 ≡ ok t
      → IsEntry s t × Entered s.origin i.decision i.correlation i.cause t
  unfolding enter
  enter-Entered s i g t h = elim (Bool-cases i.known) [
    | inr k ↦ absurd (ground arith)
    | inl k ↦
        let (w, made, e) =
          emitting-ok (entering i (root_work s)) s.executor [] g t (ground arith) in
        entered_of s i.decision i.correlation i.cause w g t (entering-ok s i w made) e
  ]
