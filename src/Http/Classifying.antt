-- ===== src/Http/Classifying.antt =====
-- What a classification says of a completed request (src/shared/http/policy.ts, problem.ts).
use modular_hx_fastapi.Common.{
  Bool, Bool-cases, Num, Option, Text, Value, [], ap, arith, codes, false, inl, inr, none, one_of,
  refl, some, subst, sym, true, ◌++◌, ◌is◌, ◌||◌, ◌∷◌, ◌≡◌, ◌⊎◌,
}
use modular_hx_fastapi.Errors.{
  PublicInfo, Unknown, err, internal, kind_name, kind_of, ok, plain, public_info, trusted,
}
use modular_hx_fastapi.Http.Policies.{
  Classification, Facts, Outcome, at_least, by_termination, classified, classify_completion,
  completed, fill_type, is_error, present, problem_from, problem_of, span_error_of, success,
}
use modular_hx_fastapi.Errors.Projection.{IsUnclassified, public_info_conceals}

-- A success is a completed response below 400 without a failure; an error type is given exactly for span
-- errors; and what is no span error was completed below 500.
pub record IsClassified (f : Facts) (c : Classification) : Type 0 where
  pub typed : present c.error_type ≡ c.span_error
  pub success_means :
      c.outcome ≡ success
      → ((f.termination is "response_completed") ≡ true)
        × (f.failure_kind ≡ none)
        × (at_least 400 f.status ≡ false)
  pub no_error_means :
      c.span_error ≡ false
      → ((f.termination is "response_completed") ≡ true)
        × (at_least 500 f.status ≡ false)
        × (is_error c.outcome ≡ false)

-- What every pair of an outcome and an error type satisfies.
abbrev Means : Facts → Outcome × Option Text → Type 0
Means f (o, t) =
    (present t ≡ true → is_error o ≡ true)
    × (o ≡ success
        → ((f.termination is "response_completed") ≡ true)
          × (f.failure_kind ≡ none)
          × (at_least 400 f.status ≡ false))

abbrev MeansCompleted : Option Text → Option Num → Outcome × Option Text → Type 0
MeansCompleted k s p =
    (present p.1 ≡ true → is_error p.0 ≡ true)
    × (p.0 ≡ success → (k ≡ none) × (at_least 400 s ≡ false))

completed-MeansCompleted : (k : Option Text) (s : Option Num) → MeansCompleted k s (completed k s)
unfolding completed
completed-MeansCompleted none s = elim (Bool-cases (at_least 500 s)) [
  | inl h ↦ (λ e. absurd (ground arith), λ e. absurd (ground arith))
  | inr h ↦ elim (Bool-cases (at_least 400 s)) [
    | inl k ↦ (λ e. absurd (ground arith), λ e. absurd (ground arith))
    | inr k ↦ (λ e. absurd (ground arith), λ e. (refl, k))
  ]
]
completed-MeansCompleted (some t) s = elim (Bool-cases (t is "timeout")) [
  | inl a ↦ (λ e. ground arith, λ e. absurd (ground arith))
  | inr a ↦ elim (Bool-cases (t is "canceled")) [
    | inl b ↦ (λ e. ground arith, λ e. absurd (ground arith))
    | inr b ↦ elim (Bool-cases (t is "internal" || t is "unavailable")) [
      | inl c ↦ (λ e. ground arith, λ e. absurd (ground arith))
      | inr c ↦ (λ e. absurd (ground arith), λ e. absurd (ground arith))
    ]
  ]
]

by_termination-cases :
    (f : Facts) (p : Outcome × Option Text)
    → by_termination f ≡ some p
    → (is_error p.0 ≡ true)
      ⊎ (((f.termination is "response_completed") ≡ true) × (completed f.failure_kind f.status ≡ p))
unfolding by_termination
by_termination-cases f p h = elim (Bool-cases (f.termination is "peer_closed")) [
  | inl a ↦ inl (ground arith)
  | inr a ↦ elim (Bool-cases (f.termination is "deadline")) [
    | inl b ↦ inl (ground arith)
    | inr b ↦
        elim (Bool-cases
          (one_of f.termination ("handler_error" ∷ "write_error" ∷ "abandoned" ∷ []))) [
            | inl c ↦ inl (ground arith)
            | inr c ↦ elim (Bool-cases (f.termination is "response_completed")) [
              | inl d ↦ inr (d, ground arith)
              | inr d ↦ absurd (ground arith)
            ]
          ]
  ]
]

by_termination-Means :
    (f : Facts) (o : Outcome) (t : Option Text) → by_termination f ≡ some (o, t) → Means f (o, t)
by_termination-Means f o t h = elim (by_termination-cases f (o, t) h) [
  | inl e ↦ (λ p. e, λ k. absurd (ground arith))
  | inr (r, e) ↦
      let (typed, good) =
        subst (MeansCompleted f.failure_kind f.status) e
          (completed-MeansCompleted f.failure_kind f.status) in
      (typed, λ k. let (x, y) = good k in (r, x, y))
]

filled-typed :
    (f : Facts) (t : Option Text) (e : Bool)
    → (present t ≡ true → e ≡ true)
    → present (fill_type f t e) ≡ e
filled-typed f none true h = refl
filled-typed f none false h = refl
filled-typed f (some t) e h = sym (h refl)

span_error-true : (f : Facts) (o : Outcome) → is_error o ≡ true → span_error_of f o ≡ true
span_error-true f o h = ground arith

span_error-false :
    (f : Facts) (o : Outcome)
    → span_error_of f o ≡ false
    → ((f.termination is "response_completed") ≡ true)
      × (at_least 500 f.status ≡ false)
      × (is_error o ≡ false)
span_error-false f o h = (ground arith, ground arith, ground arith)

classified-IsClassified :
    (f : Facts) (p : Option (Outcome × Option Text)) (c : Classification)
    → by_termination f ≡ p
    → classified f p ≡ ok c
    → IsClassified f c
classified-IsClassified f none c e h = absurd (ground arith)
classified-IsClassified f (some (o, t)) c e h =
    let (typed, good) = by_termination-Means f o t e in
    let made : Classification = record {
      outcome = o;
      span_error = span_error_of f o;
      error_type = fill_type f t (span_error_of f o);
    } in
    let same_class : made ≡ c = ground arith in
    subst (λ (x : Classification). IsClassified f x) same_class
      (record {
        typed = filled-typed f t (span_error_of f o) (λ k. span_error-true f o (typed k));
        success_means = good;
        no_error_means = span_error-false f o;
      })

-- Whenever a completion is classified: an error type is given exactly if it is a span error; a success was
-- completed with a status below 400, or none, and without a failure; and what is no span error was completed
-- below 500 with an outcome that is no error.
pub classify_completion-IsClassified :
    (f : Facts) (c : Classification) → classify_completion f ≡ ok c → IsClassified f c
unfolding classify_completion
classify_completion-IsClassified f c h =
    classified-IsClassified f (by_termination f) c refl (ground arith)

-- What a caller is told of an unclassified value or an internal failure does not depend on it: the status 500
-- with a fixed title and detail, without code and fields.
pub problem_of_conceals :
    (e : Unknown)
    → IsUnclassified e
    → problem_of (err e)
      ≡ some (record {
        type = codes "urn:n2f:problem:" ++ codes (kind_name internal);
        title = "Internal Server Error";
        detail = "internal error";
        kind = internal;
        status = 500;
        code = none;
        fields = none;
      })
unfolding problem_of public_info trusted kind_of
problem_of_conceals e h =
    ap (λ (i : PublicInfo). some (problem_from i))
      (public_info_conceals e (plain Value.undefined) h (inl refl))
