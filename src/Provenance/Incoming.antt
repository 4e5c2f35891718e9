-- ===== src/Provenance/Incoming.antt =====
-- src/shared/provenance/incoming.ts: hints of a caller outside, inspected but never trusted.
use modular_hx_fastapi.Common.{
  Bool, List, Option, Text, [], if◌then◌else◌, none, not, some, string, true, ◌&&◌, ◌++◌, ◌∷◌,
}
use modular_hx_fastapi.Errors.{Failure, Result, err, ok}
use modular_hx_fastapi.Identifiers.{parse}
use modular_hx_fastapi.Provenance.Actors.{Reference, is_some, reference, valid_reference_kind}

pub record Cause : Type 0 where
  pub kind : Text
  pub id : Text

pub record Hints : Type 0 where
  pub correlation : Option Text
  pub causation : Option Cause

pub data Disposition : Type 0 where
  fresh continued restarted : Disposition

pub data Issue : Type 0 where
  correlation_id correlation_missing causation_kind causation_id : Issue

pub record IncomingResult : Type 0 where
  pub known : Bool
  pub decision : Disposition
  pub correlation : Option Text
  pub cause : Option Reference
  pub issues : List Issue

-- The decision, the correlation and its issues, for a correlation hint.
abbrev pub inspect_correlation : Option Text → Disposition × Option Text × List Issue
inspect_correlation none = (restarted, none, [])
inspect_correlation (some t) = elim (parse (string t)) [
  | ok id ↦ (continued, some id, [])
  | err f ↦ (restarted, none, Issue.correlation_id ∷ [])
]

abbrev pub accept : Result Reference Failure → Option Reference
accept (ok r) = some r
accept (err f) = none

-- The cause and its issues, for a causation hint and the accepted correlation.
abbrev pub inspect_causation : Option Cause → Option Text → Option Reference × List Issue
inspect_causation none correlation = (none, [])
inspect_causation (some c) correlation =
    if not (valid_reference_kind c.kind)
    then (none, causation_kind ∷ [])
    else elim (parse (string c.id)) [
      | err f ↦ (none, causation_id ∷ [])
      | ok id ↦ elim correlation [
        | none ↦ (none, correlation_missing ∷ [])
        | some _ ↦ (accept (reference c.kind id), [])
      ]
    ]

abbrev no_hints : Hints → Bool
no_hints h = not (is_some h.correlation) && not (is_some h.causation)

unfoldable pub inspect_incoming : Hints → IncomingResult
inspect_incoming h =
    if no_hints h
    then record { known = true; decision = fresh; correlation = none; cause = none; issues = [] }
    else let (decision, correlation, first) = inspect_correlation h.correlation in
      let (cause, second) = inspect_causation h.causation correlation in
      record {
        known = true;
        decision = decision;
        correlation = correlation;
        cause = cause;
        issues = first ++ second;
      }
