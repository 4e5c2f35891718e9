-- ===== src/Provenance/Lineage.antt =====
-- How a new scope relates to what it came from (src/shared/provenance/factory.ts).
use modular_hx_fastapi.Common.{
  List, Num, Option, Text, ap, arith, false, inl, inr, nat, none, not, or_false_parts, refl, some,
  subst, sym, ℕ, ◌||◌, ◌∙◌, ◌≡◌,
}
use modular_hx_fastapi.Errors.{Failure, Result, Result-cases, err, ok, refuse_if-passed}
use modular_hx_fastapi.Provenance.Execution.{IsScope, normalized_time_iff, restore_scope_iff}
use modular_hx_fastapi.Provenance.Actors.{Actor, valid_id}
use modular_hx_fastapi.Provenance.Works.{Replay, Work}
use modular_hx_fastapi.Provenance.Scopes.{
  Scope, ScopeSnapshot, normalized_time, restore_scope, snapshot,
}
use modular_hx_fastapi.Provenance.Factories.{
  checked, emit, fill_in, fill_replay, finish, generated, generated_error, is_forbidden, or_id,
}
use modular_hx_fastapi.Provenance.Validity.{HasId, IsWork, OnSome, RefersElsewhere}

abbrev emitted_snapshot : Work → Option Actor → Num → Option Text → ℕ → Text → ScopeSnapshot
emitted_snapshot w executor attempt previous ms id = record {
  work = fill_in w id;
  scope_id = id;
  started_at = nat ms;
  executor = executor;
  attempt = attempt;
  previous_attempt = previous;
}

generated-ok : (r : Result Scope Failure) {t : Scope} → generated r ≡ ok t → r ≡ ok t
generated-ok (ok a) h = h
generated-ok (err f) h = cc

same_scope_id : (t : Scope) (s : ScopeSnapshot) → snapshot t ≡ s → t.scope_id ≡ s.scope_id
unfolding snapshot
same_scope_id t s h = ap (λ (s : ScopeSnapshot). s.scope_id) h

pub or_id-HasId : (o : Option Text) (id : Text) → HasId o → or_id o id ≡ o
or_id-HasId none id h = cc (h.1)
or_id-HasId (some o) id h = refl

fill_replay-HasId :
    (own : Option Text) (r : Option Replay) (id : Text)
    → OnSome (λ r. HasId r.run_id × RefersElsewhere own r.source) r
    → fill_replay r id ≡ r
fill_replay-HasId own none id h = refl
fill_replay-HasId own (some r) id h =
    ap some (ap (λ o. record r { run_id = o }) (or_id-HasId r.run_id id h.0))

-- Complete work has nothing to fill in.
pub fill_in-IsWork : (w : Work) (id : Text) → IsWork w → fill_in w id ≡ w
unfolding fill_in
fill_in-IsWork w id v = ground (
  arith,
  or_id-HasId w.work_id id v.work,
  or_id-HasId w.correlation_id id v.correlation,
  fill_replay-HasId w.work_id w.replay id v.replay,
)

finish-ok :
    (w : Work) (executor : Option Actor) (attempt : Num) (previous : Option Text)
    (barred : List Text) (ms : ℕ) (next : Result Text Failure) (t : Scope)
    → finish w executor attempt previous barred ms next ≡ ok t
    → (next ≡ ok t.scope_id)
      × IsScope t
      × (is_forbidden t.scope_id barred ≡ false)
      × (snapshot t ≡ emitted_snapshot w executor attempt previous ms t.scope_id)
unfolding finish
finish-ok w executor attempt previous barred ms (err f) t h = cc
finish-ok w executor attempt previous barred ms (ok id) t h =
    let (passed, made) =
      refuse_if-passed (not (valid_id id) || is_forbidden id barred) generated_error
        (generated (restore_scope (emitted_snapshot w executor attempt previous ms id))) h in
    let (valid, same_snapshot) = (restore_scope_iff _ t).0 (generated-ok _ made) in
    let same_id : t.scope_id ≡ id =
      same_scope_id t (emitted_snapshot w executor attempt previous ms id) same_snapshot in
    (
      ap ok (sym same_id),
      valid,
      rw same_id (or_false_parts _ _ passed).1,
      subst (λ x. snapshot t ≡ emitted_snapshot w executor attempt previous ms x) (sym same_id)
          same_snapshot,
    )

module _ {G : Type 0} (new_id : G → Result Text Failure × G) (now : Num) where
  -- What is known of a scope that a factory emits.
  pub record IsEmitted (w : Work) (executor : Option Actor) (attempt : Num) (previous : Option Text)
      (barred : List Text) (g : G) (t : Scope) : Type 0 where
    pub drawn : (new_id g).0 ≡ ok t.scope_id
    pub valid : IsScope t
    pub allowed : is_forbidden t.scope_id barred ≡ false
    pub time : now ≡ nat t.started
    pub work : t.work_context.snapshot ≡ fill_in w t.scope_id
    pub executor_kept : t.executor ≡ executor
    pub attempt_kept : t.attempt ≡ attempt
    pub previous_kept : t.previous_attempt ≡ previous

  checked-ok :
      (w : Work) (executor : Option Actor) (attempt : Num) (ms : ℕ)
      → checked w executor attempt now ≡ ok ms
      → normalized_time now ≡ some ms
  unfolding checked
  checked-ok w executor attempt ms h = ground arith

  pub emit-ok :
      (w : Work) (executor : Option Actor) (attempt : Num) (previous : Option Text)
      (barred : List Text) (g : G) (t : Scope)
      → (emit new_id now w executor attempt previous barred g).0 ≡ ok t
      → IsEmitted w executor attempt previous barred g t
  unfolding emit
  emit-ok w executor attempt previous barred g t h =
      elim (Result-cases (checked w executor attempt now)) [
        | inr (f, e) ↦ absurd (ground arith)
        | inl (ms, e) ↦
            let (drawn, valid, allowed, parts) =
              finish-ok w executor attempt previous barred ms (new_id g).0 t (ground arith) in
            let known = (normalized_time_iff now ms).0 (checked-ok w executor attempt ms e) in
            unfold snapshot in
            record {
              drawn = drawn;
              valid = valid;
              allowed = allowed;
              time = known.0 ∙ sym (ap (λ (s : ScopeSnapshot). s.started_at) parts);
              work = ap (λ (s : ScopeSnapshot). s.work) parts;
              executor_kept = ap (λ (s : ScopeSnapshot). s.executor) parts;
              attempt_kept = ap (λ (s : ScopeSnapshot). s.attempt) parts;
              previous_kept = ap (λ (s : ScopeSnapshot). s.previous_attempt) parts;
            }
      ]
