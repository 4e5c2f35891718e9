-- ===== src/Provenance/Validity.antt =====
-- When work is well formed, stated apart from the validator, and that the validator decides it
-- (src/shared/provenance/work.ts).
use modular_hx_fastapi.Common.{
  Bool, Bool-cases, Num, Option, Text, [], ap, arith, false, inl, inr, nat, neg, non_integer, none,
  not, one_of, or_false_parts, refl, same_iff, same_refl, some, sym, true, ℕ, ◌<◌, ◌is◌, ◌↔◌, ◌∷◌,
  ◌≡◌, ◌≢◌, ◌≤◌, ◌⊎◌,
}
use modular_hx_fastapi.Errors.{
  >>=-eq-ok, Failure, Result, err, ok, refuse_if-passed, refused-false, ◌>>◌,
}
use modular_hx_fastapi.Provenance.Actors.{Reference, is_some, valid_id, valid_operation}
use modular_hx_fastapi.Provenance.Works.{
  Replay, Work, WorkContext, bad_depth, bad_id, bad_origin, check_causation, check_depth,
  check_replay, differ, is_replay, max_ordinal, names_work, replay_mismatch, restore_work,
  valid_origin, validate_work,
}

abbrev pub OnSome {ℓ κ} : {A : Type ℓ} → (A → Type κ) → Option A → Type κ
OnSome P none = Unit
OnSome P (some a) = P a

-- There is an identifier, and it is canonical.
abbrev pub HasId : Option Text → Type 0
HasId o = (id : Text) × (o ≡ some id) × (valid_id id ≡ true)

-- A reference that the module made, and that does not name the work itself.
abbrev pub RefersElsewhere : Option Text → Reference → Type 0
RefersElsewhere own r = (r.known ≡ true) × ((r.kind is "work") ≡ true → own ≢ some r.id)

-- A depth is a natural number of 32 bits; it is positive only with a cause, and a local root has none.
abbrev pub FitsDepth : Text → Option Reference → Num → Type 0
FitsDepth source causation d =
    (n : ℕ) × (d ≡ nat n)
    × (n ≤ max_ordinal)
    × (0 < n → causation ≢ none)
    × ((source is "local") ≡ true → n ≡ 0 → causation ≡ none)

pub record IsWork (w : Work) : Type 0 where
  pub work : HasId w.work_id
  pub correlation : HasId w.correlation_id
  pub source :
      ((w.correlation_source is "local") ≡ true) ⊎ ((w.correlation_source is "external") ≡ true)
  pub operation : valid_operation w.operation ≡ true
  pub attribution : w.attribution.known ≡ true
  pub origin : OnSome (λ o. valid_origin o ≡ true) w.origin
  pub replayed : is_some w.replay ≡ is_replay w.origin
  pub causation : OnSome (RefersElsewhere w.work_id) w.causation
  pub depth : OnSome (FitsDepth w.correlation_source w.causation) w.depth
  pub replay : OnSome (λ r. HasId r.run_id × RefersElsewhere w.work_id r.source) w.replay

HasId_of : (o : Option Text) → bad_id false o ≡ false → HasId o
HasId_of none h = cc
HasId_of (some id) h = (id, refl, ground arith)

RefersElsewhere_of :
    (own : Option Text) (r : Reference)
    → not r.known ≡ false
    → names_work r own ≡ false
    → RefersElsewhere own r
RefersElsewhere_of none r h k = (ground arith, λ e. λ f. cc)
RefersElsewhere_of (some id) r h k = (ground arith, λ e. λ f. ground (arith, same_refl r.id))

check_causation_sound :
    (own : Option Text) (c : Option Reference)
    → check_causation own c ≡ ok tt
    → OnSome (RefersElsewhere own) c
unfolding check_causation
check_causation_sound own none h = tt
check_causation_sound own (some r) h =
    let (made, h') = refuse_if-passed _ _ _ h in
    RefersElsewhere_of own r made (refused-false _ _ h')

bad_depth_sound :
    (source : Text) (causation : Option Reference) (d : Num)
    → bad_depth source (is_some causation) d ≡ false
    → FitsDepth source causation d
bad_depth_sound source causation (nat n) h =
    (n, refl, ground arith, λ p e. ground arith, λ e z. uncaused causation e z h)
  where
    uncaused :
        (c : Option Reference)
        → (source is "local") ≡ true
        → n ≡ 0
        → bad_depth source (is_some c) (nat n) ≡ false
        → c ≡ none
    uncaused none e z k = refl
    uncaused (some r) e z k = ground arith
bad_depth_sound source causation (neg n) h = ground arith
bad_depth_sound source causation non_integer h = ground arith

check_depth_sound :
    (source : Text) (causation : Option Reference) (d : Option Num)
    → check_depth source causation d ≡ ok tt
    → OnSome (FitsDepth source causation) d
unfolding check_depth
check_depth_sound source causation none h = tt
check_depth_sound source causation (some d) h =
    bad_depth_sound source causation d (refused-false _ _ h)

check_replay_sound :
    (own : Option Text) (r : Option Replay)
    → check_replay own false r ≡ ok tt
    → OnSome (λ r. HasId r.run_id × RefersElsewhere own r.source) r
unfolding check_replay
check_replay_sound own none h = tt
check_replay_sound own (some r) h =
    let (made, h') = refuse_if-passed _ _ _ h in
    let (source, run) = or_false_parts _ _ made in
    (HasId_of r.run_id run, RefersElsewhere_of own r.source source (refused-false _ _ h'))

bad_origin_sound : (o : Option Text) → bad_origin o ≡ false → OnSome (λ o. valid_origin o ≡ true) o
bad_origin_sound none h = tt
bad_origin_sound (some o) h = ground arith

differ-false : (a b : Bool) → differ a b ≡ false → a ≡ b
differ-false a b h = ground arith

-- The tests of the validator, in order.
abbrev Passed : Work → Bool → Type 0
Passed w defaults =
    (bad_id defaults w.work_id ≡ false)
    × (bad_id defaults w.correlation_id ≡ false)
    × (one_of w.correlation_source ("local" ∷ "external" ∷ []) ≡ true)
    × (valid_operation w.operation ≡ true)
    × (w.attribution.known ≡ true)
    × (bad_origin w.origin ≡ false)
    × (replay_mismatch w ≡ false)
    × (check_causation w.work_id w.causation ≡ ok tt)
    × (check_depth w.correlation_source w.causation w.depth ≡ ok tt)
    × (check_replay w.work_id defaults w.replay ≡ ok tt)

Unit-ok :
    (m : Result (Unit {0}) Failure) (k : Result (Unit {0}) Failure)
    → (m >> k) ≡ ok tt
    → (m ≡ ok tt) × (k ≡ ok tt)
Unit-ok (ok u) k h = (refl, h)
Unit-ok (err f) k h = cc

validate_work-Passed :
    (w : Work) (defaults : Bool) → validate_work w defaults ≡ ok tt → Passed w defaults
unfolding validate_work
validate_work-Passed w defaults h = ground arith

validate_work_sound : (w : Work) → validate_work w false ≡ ok tt → IsWork w
validate_work_sound w h =
    let (work, correlation, source, op, attributed, origin, replayed, caused, deep, again) =
      validate_work-Passed w false h in
    record {
      work = HasId_of w.work_id work;
      correlation = HasId_of w.correlation_id correlation;
      source = ground arith;
      operation = op;
      attribution = attributed;
      origin = bad_origin_sound w.origin origin;
      replayed = differ-false (is_some w.replay) (is_replay w.origin) replayed;
      causation = check_causation_sound w.work_id w.causation caused;
      depth = check_depth_sound w.correlation_source w.causation w.depth deep;
      replay = check_replay_sound w.work_id w.replay again;
    }

HasId_false : (o : Option Text) → HasId o → bad_id false o ≡ false
HasId_false none (id, e, v) = cc
HasId_false (some id) (id', e, v) = ground arith

RefersElsewhere_false :
    (own : Option Text) (r : Reference)
    → RefersElsewhere own r
    → (not r.known ≡ false) × (names_work r own ≡ false)
RefersElsewhere_false none r (known, other) = ground arith
RefersElsewhere_false (some id) r (known, other) = (
  ground arith,
  elim (Bool-cases (names_work r (some id))) [
    | inr e ↦ e
    | inl e ↦ absurd (other (ground arith) (ap some (sym ((same_iff r.id id).0 (ground arith)))))
  ],
)

check_causation_complete :
    (own : Option Text) (c : Option Reference)
    → OnSome (RefersElsewhere own) c
    → check_causation own c ≡ ok tt
unfolding check_causation
check_causation_complete own none h = refl
check_causation_complete own (some r) h = ground (arith, RefersElsewhere_false own r h)

bad_depth_complete :
    (source : Text) (causation : Option Reference) (d : Num)
    → FitsDepth source causation d
    → bad_depth source (is_some causation) d ≡ false
bad_depth_complete source causation d (n, e, bound, caused, root) =
    rw e (cases causation caused root)
  where
    cases :
        (c : Option Reference)
        → (0 < n → c ≢ none)
        → ((source is "local") ≡ true → n ≡ 0 → c ≡ none)
        → bad_depth source (is_some c) (nat n) ≡ false
    cases none caused root = ground arith
    cases (some r) caused root = ground arith

check_depth_complete :
    (source : Text) (causation : Option Reference) (d : Option Num)
    → OnSome (FitsDepth source causation) d
    → check_depth source causation d ≡ ok tt
unfolding check_depth
check_depth_complete source causation none h = refl
check_depth_complete source causation (some d) h = rw (bad_depth_complete source causation d h)

check_replay_complete :
    (own : Option Text) (r : Option Replay)
    → OnSome (λ r. HasId r.run_id × RefersElsewhere own r.source) r
    → check_replay own false r ≡ ok tt
unfolding check_replay
check_replay_complete own none h = refl
check_replay_complete own (some r) (run, elsewhere) =
    ground (arith, HasId_false r.run_id run, RefersElsewhere_false own r.source elsewhere)

bad_origin_complete :
    (o : Option Text) → OnSome (λ o. valid_origin o ≡ true) o → bad_origin o ≡ false
bad_origin_complete none h = refl
bad_origin_complete (some o) h = rw h

validate_work_complete : (w : Work) → IsWork w → validate_work w false ≡ ok tt
unfolding validate_work
validate_work_complete w v = ground (
  arith,
  HasId_false w.work_id v.work,
  HasId_false w.correlation_id v.correlation,
  bad_origin_complete w.origin v.origin,
  v.source,
  v.operation,
  v.attribution,
  v.replayed,
  check_causation_complete w.work_id w.causation v.causation,
  check_depth_complete w.correlation_source w.causation w.depth v.depth,
  check_replay_complete w.work_id w.replay v.replay,
)

-- Stored work is restored exactly when it is well formed, and then unchanged.
pub restore_work_iff :
    (w : Work) (c : WorkContext)
    → (restore_work w ≡ ok c) ↔ (IsWork w × (c ≡ record { known = true; snapshot = w }))
unfolding restore_work
restore_work_iff w c = (
  λ h.
      let (u, valid, made) = >>=-eq-ok (validate_work w false) _ h in
      (validate_work_sound w (ground arith), ground arith),
  λ (v, e). ground (arith, validate_work_complete w v),
)
