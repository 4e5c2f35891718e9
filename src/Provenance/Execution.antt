-- ===== src/Provenance/Execution.antt =====
-- When a scope is well formed, and that restoring decides it and loses nothing
-- (src/shared/provenance/scope.ts).
use modular_hx_fastapi.Common.{
  Bool-cases, Num, Option, Option-cases, Text, arith, equals, false, inl, inr, nat, neg,
  non_integer, none, refl, same_iff, some, true, ℕ, ◌is◌, ◌↔◌, ◌≡◌, ◌≢◌, ◌≤◌,
}
use modular_hx_fastapi.Errors.{Result-cases, named, ok}
use modular_hx_fastapi.Provenance.Validity.{IsWork, OnSome, restore_work_iff}
use modular_hx_fastapi.Provenance.Actors.{Reference, named_actor, valid_id}
use modular_hx_fastapi.Provenance.Works.{WorkContext, max_ordinal, restore_work}
use modular_hx_fastapi.Provenance.Scopes.{
  Scope, ScopeSnapshot, bad_attempt, bad_previous, names_scope, normalized_time, restore_scope,
  snapshot,
}

-- An ordinal from 1 to the largest of 32 bits.
abbrev pub IsAttempt : Num → Type 0
IsAttempt a = (n : ℕ) × (a ≡ nat n) × (1 ≤ n) × (n ≤ max_ordinal)

-- A first attempt has no earlier one, and no scope is its own earlier attempt.
abbrev pub IsPrevious : Text → Num → Text → Type 0
IsPrevious scope_id attempt p = (valid_id p ≡ true) × (p ≢ scope_id) × (attempt ≢ nat 1)

-- A cause that is not the scope itself.
abbrev pub IsOtherScope : Text → Reference → Type 0
IsOtherScope scope_id r = (r.kind is "scope") ≡ true → r.id ≢ scope_id

pub record IsScope (s : Scope) : Type 0 where
  pub known : s.known ≡ true
  pub work_known : s.work_context.known ≡ true
  pub work : IsWork s.work_context.snapshot
  pub scope_id : valid_id s.scope_id ≡ true
  pub executor : named_actor s.executor ≡ true
  pub attempt : IsAttempt s.attempt
  pub previous : OnSome (IsPrevious s.scope_id s.attempt) s.previous_attempt
  pub causation : OnSome (IsOtherScope s.scope_id) s.work_context.snapshot.causation
  pub started : s.started ≤ 281474976710655

IsAttempt-of : (a : Num) → bad_attempt a ≡ false → IsAttempt a
IsAttempt-of (nat n) h = (n, refl, ground arith, ground arith)
IsAttempt-of (neg n) h = cc
IsAttempt-of non_integer h = cc

IsAttempt-false : (a : Num) → IsAttempt a → bad_attempt a ≡ false
IsAttempt-false a (n, e, lo, hi) = rw e (ground arith)

IsPrevious-of :
    (id : Text) (a : Num) (p : Option Text)
    → bad_previous id a p ≡ false
    → OnSome (IsPrevious id a) p
IsPrevious-of id a none h = tt
IsPrevious-of id a (some p) h =
    (ground arith, λ e. ground (arith, same_iff p id), λ e. not_first a e (ground arith))
  where
    not_first : (a : Num) → a ≡ nat 1 → equals a 1 ≡ false → ⊥
    not_first (nat n) e k = ground arith
    not_first (neg n) e k = cc
    not_first non_integer e k = cc

IsPrevious-false :
    (id : Text) (a : Num) (p : Option Text)
    → OnSome (IsPrevious id a) p
    → bad_previous id a p ≡ false
IsPrevious-false id a none h = refl
IsPrevious-false id a (some p) (valid, other, later) =
    ground (arith, same_iff p id, first_false a later)
  where
    first_false : (a : Num) → a ≢ nat 1 → equals a 1 ≡ false
    first_false (nat n) k = ground arith
    first_false (neg n) k = refl
    first_false non_integer k = refl

IsOtherScope-of :
    (id : Text) (c : Option Reference) → names_scope c id ≡ false → OnSome (IsOtherScope id) c
IsOtherScope-of id none h = tt
IsOtherScope-of id (some r) h = λ k e. ground (arith, same_iff r.id id)

IsOtherScope-false :
    (id : Text) (c : Option Reference) → OnSome (IsOtherScope id) c → names_scope c id ≡ false
IsOtherScope-false id none h = refl
IsOtherScope-false id (some r) h = elim (Bool-cases (names_scope (some r) id)) [
  | inr e ↦ e
  | inl e ↦ absurd (h (ground arith) ((same_iff r.id id).0 (ground arith)))
]

pub normalized_time_iff :
    (t : Num) (ms : ℕ) → (normalized_time t ≡ some ms) ↔ ((t ≡ nat ms) × (ms ≤ 281474976710655))
unfolding normalized_time
normalized_time_iff (nat n) ms = ground arith
normalized_time_iff (neg n) ms = ground arith
normalized_time_iff non_integer ms = ground arith

-- A scope with the parts of a snapshot.
abbrev assembled : ScopeSnapshot → WorkContext → ℕ → Scope
assembled s w ms = record {
  known = true;
  work_context = w;
  scope_id = s.scope_id;
  executor = s.executor;
  attempt = s.attempt;
  previous_attempt = s.previous_attempt;
  started = ms;
}

abbrev Parts : ScopeSnapshot → Scope → Type 0
Parts s t =
    (w : WorkContext) × (ms : ℕ) × (t ≡ assembled s w ms)
    × (restore_work s.work ≡ ok w)
    × (normalized_time s.started_at ≡ some ms)
    × (valid_id s.scope_id ≡ true)
    × (named_actor s.executor ≡ true)
    × (bad_attempt s.attempt ≡ false)
    × (bad_previous s.scope_id s.attempt s.previous_attempt ≡ false)
    × (names_scope s.work.causation s.scope_id ≡ false)

restore_scope-Parts : (s : ScopeSnapshot) (t : Scope) → restore_scope s ≡ ok t → Parts s t
unfolding restore_scope
restore_scope-Parts s t h = elim (Result-cases (restore_work s.work)) [
  | inr (f, e) ↦ absurd (ground arith)
  | inl (w, e) ↦ elim (Option-cases (normalized_time s.started_at)) [
    | inl n ↦ absurd (ground arith)
    | inr (ms, n) ↦ (
      w,
      ms,
      ground arith,
      e,
      n,
      ground arith,
      ground arith,
      ground arith,
      ground arith,
      ground arith,
    )
  ]
]

restore_scope_complete : (s : ScopeSnapshot) (t : Scope) → Parts s t → restore_scope s ≡ ok t
unfolding restore_scope
restore_scope_complete s t (w, ms, made, e, n, a, b, c, d, f) = ground arith

Parts-IsScope : (s : ScopeSnapshot) (t : Scope) → Parts s t → IsScope t × (snapshot t ≡ s)
unfolding snapshot
Parts-IsScope s t (w, ms, made, e, n, id, named, attempt, previous, elsewhere) =
    let (work, same_work) = (restore_work_iff s.work w).0 e in
    let (time, bound) = (normalized_time_iff s.started_at ms).0 n in
    rw (made, same_work)
      (
        record {
          known = refl;
          work_known = refl;
          work = work;
          scope_id = id;
          executor = named;
          attempt = IsAttempt-of s.attempt attempt;
          previous = IsPrevious-of s.scope_id s.attempt s.previous_attempt previous;
          causation = IsOtherScope-of s.scope_id s.work.causation elsewhere;
          started = bound;
        },
        ground arith,
      )

IsScope-Parts : (t : Scope) → IsScope t → Parts (snapshot t) t
unfolding snapshot
IsScope-Parts t v = (
  t.work_context,
  t.started,
  ground (arith, v.known),
  (restore_work_iff t.work_context.snapshot t.work_context).1
      (v.work, ground (arith, v.work_known)),
  (normalized_time_iff (nat t.started) t.started).1 (refl, v.started),
  v.scope_id,
  v.executor,
  IsAttempt-false t.attempt v.attempt,
  IsPrevious-false t.scope_id t.attempt t.previous_attempt v.previous,
  IsOtherScope-false t.scope_id t.work_context.snapshot.causation v.causation,
)

-- A stored scope is restored exactly when the result is well formed, and a snapshot of the result is
-- what was stored.
pub restore_scope_iff :
    (s : ScopeSnapshot) (t : Scope) → (restore_scope s ≡ ok t) ↔ (IsScope t × (snapshot t ≡ s))
restore_scope_iff s t = (
  λ h. Parts-IsScope s t (restore_scope-Parts s t h),
  λ (v, e). rw (← e) (restore_scope_complete (snapshot t) t (IsScope-Parts t v)),
)
