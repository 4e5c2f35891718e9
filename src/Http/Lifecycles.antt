-- ===== src/Http/Lifecycles.antt =====
-- src/shared/http/lifecycle.ts: the completion of a request, told to every output once. Readings of the
-- monotonic clock are natural numbers of nanoseconds; an output is whether it returns for a completion.
use modular_hx_fastapi.Common.{
  Bool, List, [], false, if◌then◌else◌, ltb, suc, true, ℕ, ◌++◌, ◌+◌, ◌-◌, ◌∷◌,
}
use modular_hx_fastapi.Errors.{Failure, Result, err, invalid, ok, typed_failure}
use modular_hx_fastapi.Http.Policies.{Classification, Facts, classify_completion}

pub record Completion : Type 0 where
  pub facts : Facts
  pub classification : Classification
  pub elapsed_ns : ℕ

-- The private fields of the class, and the completions that the outputs were called with.
pub record Active : Type 0 where
  pub started : ℕ
  pub outputs : List (Completion → Bool)
  pub done : Bool
  pub failed_attempts : ℕ
  pub told : List Completion

unfoldable pub start : ℕ → List (Completion → Bool) → Active
start now outputs = record {
  started = now;
  outputs = outputs;
  done = false;
  failed_attempts = 0;
  told = [];
}

-- How many outputs throw.
abbrev pub throwing : List (Completion → Bool) → Completion → ℕ
throwing [] c = 0
throwing (f ∷ fs) c = if f c then throwing fs c else suc (throwing fs c)

abbrev pub negative_duration : Failure
negative_duration =
    typed_failure invalid "invalid observation duration" "telemetry.invalid_duration"

-- `finish` after the classification.
unfoldable pub finish_with : Facts → ℕ → Active → Classification → Result Bool Failure × Active
finish_with f now a c = elim a.done [
  | true ↦ (ok false, a)
  | false ↦ elim (ltb now a.started) [
    | true ↦ (err negative_duration, a)
    | false ↦
        let completion : Completion = record {
          facts = f;
          classification = c;
          elapsed_ns = now - a.started;
        } in
        (
          ok true,
          record a {
            done = true;
            failed_attempts = a.failed_attempts + throwing a.outputs completion;
            told = a.told ++ completion ∷ [];
          },
        )
  ]
]

unfoldable pub finish_active : Facts → ℕ → Active → Result Bool Failure × Active
finish_active f now a = elim (classify_completion f) [
  | err e ↦ (err e, a)
  | ok c ↦ finish_with f now a c
]
