-- ===== src/Tests/Http.antt =====
-- Completions of src/shared/http on concrete requests.
use modular_hx_fastapi.Common.{
  List, Value, [], codes, false, inr, nat, none, refl, same, some, ℕ, ◌++◌, ◌is◌, ◌∷◌, ◌≡◌,
}
use modular_hx_fastapi.Errors.{Unknown, err, internal, kind_name, kind_of, ok, plain, trusted}
use modular_hx_fastapi.Errors.Projection.{IsUnclassified}
use modular_hx_fastapi.Http.{
  Active, Classification, Facts, by_termination, classify_completion, completed, problem_of,
  success,
}
use modular_hx_fastapi.Http.Classifying.{
  IsClassified, classify_completion-IsClassified, problem_of_conceals,
}
use modular_hx_fastapi.Http.Finishing.{AtMostOnce, finish_all, finish_all-once}

abbrev served : Facts
served = record {
  status = some (nat 204);
  failure_kind = none;
  termination = codes "response_completed";
}

abbrev served_class : Classification
served_class = record { outcome = success; span_error = false; error_type = none }

did_classify : classify_completion served ≡ ok served_class
unfolding classify_completion by_termination completed same ◌is◌
did_classify = refl

classify_completion-IsClassified_example : IsClassified served served_class
classify_completion-IsClassified_example =
    classify_completion-IsClassified served served_class did_classify

abbrev secret_failure : Unknown
secret_failure = Unknown.failed internal "disk full" none none [] (plain Value.undefined)

secret_failure-IsUnclassified : IsUnclassified secret_failure
unfolding kind_of trusted
secret_failure-IsUnclassified = inr refl

problem_of_conceals_example :
    problem_of (err secret_failure)
    ≡ some (record {
      type = codes "urn:n2f:problem:" ++ codes (kind_name internal);
      title = "Internal Server Error";
      detail = "internal error";
      kind = internal;
      status = 500;
      code = none;
      fields = none;
    })
problem_of_conceals_example = problem_of_conceals secret_failure secret_failure-IsUnclassified

abbrev two_calls : List (Facts × ℕ)
two_calls = (served, 7) ∷ (served, 9) ∷ []

abbrev begun : Active
begun = record {
  started = 5;
  outputs = (λ c. false) ∷ [];
  done = false;
  failed_attempts = 0;
  told = [];
}

finish_all-once_example : AtMostOnce two_calls begun (finish_all two_calls begun)
finish_all-once_example = finish_all-once two_calls begun
