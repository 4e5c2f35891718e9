-- ===== src/Provenance/Inspection.antt =====
-- What an inspection of incoming hints decides (src/shared/provenance/incoming.ts).
use modular_hx_fastapi.Common.{
  Bool-cases, Option, Text, arith, inl, inr, none, refl, same_refl, some, string, subst, true, ◌≡◌,
}
use modular_hx_fastapi.Errors.{Result-cases, err, ok}
use modular_hx_fastapi.Identifiers.{parse}
use modular_hx_fastapi.Identifiers.Canonical.{parse-again}
use modular_hx_fastapi.Provenance.Actors.{
  Reference, is_some, reference, valid_id, valid_reference_kind,
}
use modular_hx_fastapi.Provenance.References.{IsReferenceKind, valid_reference_kind_iff}
use modular_hx_fastapi.Provenance.Incoming.{
  Cause, Disposition, Hints, IncomingResult, accept, continued, fresh, inspect_causation,
  inspect_correlation, inspect_incoming, restarted,
}

-- The identifier that a text is, if it parses.
abbrev pub parsed : Option Text → Option Text
parsed none = none
parsed (some t) = elim (parse (string t)) [ ok id ↦ some id | err f ↦ none ]

-- The decision on hints.
abbrev pub decided : Option Text → Option Cause → Disposition
decided none none = fresh
decided none (some c) = restarted
decided (some t) c = elim (parse (string t)) [ ok id ↦ continued | err f ↦ restarted ]

-- An accepted cause is the reference that the hint names: of its kind, which is one of a reference, and with
-- its identifier parsed; and a correlation is accepted too.
abbrev pub IsAccepted : Option Cause → Option Text → Reference → Type 0
IsAccepted hint correlation r =
    (c : Cause) × (hint ≡ some c)
    × (r.known ≡ true)
    × (r.kind ≡ c.kind)
    × IsReferenceKind c.kind
    × (parse (string c.id) ≡ ok r.id)
    × (is_some correlation ≡ true)

-- A hint of a proper kind and identifier is accepted next to an accepted correlation.
abbrev pub Accepts : Option Cause → Option Text → Option Reference → Type 0
Accepts hint correlation cause =
    (c : Cause) (id : Text)
    → hint ≡ some c
    → IsReferenceKind c.kind
    → parse (string c.id) ≡ ok id
    → is_some correlation ≡ true
    → cause ≡ some (record { known = true; kind = c.kind; id = id })

abbrev pub Inspected : Hints → IncomingResult → Type 0
Inspected h i =
    (i.known ≡ true)
    × (i.decision ≡ decided h.correlation h.causation)
    × (i.correlation ≡ parsed h.correlation)
    × ((r : Reference) → i.cause ≡ some r → IsAccepted h.causation i.correlation r)
    × Accepts h.causation i.correlation i.cause

accepted-reference :
    (kind id : Text)
    → valid_reference_kind kind ≡ true
    → valid_id id ≡ true
    → accept (reference kind id) ≡ some (record { known = true; kind = kind; id = id })
unfolding reference
accepted-reference kind id k i = ground arith

parsed_valid : (s id : Text) → parse (string s) ≡ ok id → valid_id id ≡ true
unfolding valid_id
parsed_valid s id h = ground (arith, parse-again s id h, same_refl id)

no_correlation : (c : Cause) (r : Reference) → (inspect_causation (some c) none).0 ≡ some r → ⊥
no_correlation c r h = elim (Result-cases (parse (string c.id))) [
  | inl (k, e) ↦ ground arith
  | inr (f, e) ↦ ground arith
]

causation-IsAccepted :
    (hint : Option Cause) (correlation : Option Text) (r : Reference)
    → (inspect_causation hint correlation).0 ≡ some r
    → IsAccepted hint correlation r
causation-IsAccepted none correlation r h = absurd (ground arith)
causation-IsAccepted (some c) none r h = absurd (no_correlation c r h)
causation-IsAccepted (some c) (some t) r h = elim (Bool-cases (valid_reference_kind c.kind)) [
  | inr k ↦ absurd (ground arith)
  | inl k ↦ elim (Result-cases (parse (string c.id))) [
    | inr (f, e) ↦ absurd (ground arith)
    | inl (id, e) ↦
        let made = accepted-reference c.kind id k (parsed_valid c.id id e) in
        let named : record { known = true; kind = c.kind; id = id } ≡ r = ground (arith, made) in
        subst (IsAccepted (some c) (some t)) named
          (c, refl, refl, refl, (valid_reference_kind_iff c.kind).0 k, e, refl)
  ]
]

causation-Accepts :
    (hint : Option Cause) (correlation : Option Text)
    → Accepts hint correlation (inspect_causation hint correlation).0
causation-Accepts none correlation c id h k e g = absurd (ground arith)
causation-Accepts (some x) none c id h k e g = absurd (ground arith)
causation-Accepts (some x) (some t) c id h w e g =
    let k = (valid_reference_kind_iff c.kind).1 w in
    let same_cause : c ≡ x = ground arith in
    subst
      (λ (y : Cause).
        (inspect_causation (some y) (some t)).0
        ≡ some (record { known = true; kind = c.kind; id = id }))
      same_cause (ground (arith, accepted-reference c.kind id k (parsed_valid c.id id e)))

correlation_parsed : (c : Option Text) → (inspect_correlation c).1 ≡ parsed c
correlation_parsed none = refl
correlation_parsed (some t) = elim (Result-cases (parse (string t))) [
  | inl (k, e) ↦ ground arith
  | inr (f, e) ↦ ground arith
]

correlation_decided :
    (t : Text) (k : Option Cause) → (inspect_correlation (some t)).0 ≡ decided (some t) k
correlation_decided t k = elim (Result-cases (parse (string t))) [
  | inl (k, e) ↦ ground arith
  | inr (f, e) ↦ ground arith
]

inspected :
    (c : Option Text) (k : Option Cause)
    → let h : Hints = record { correlation = c; causation = k } in Inspected h (inspect_incoming h)
unfolding inspect_incoming
inspected none none =
    (refl, refl, refl, λ r h. absurd (ground arith), λ c id h. absurd (ground arith))
inspected none (some k) = (
  refl,
  refl,
  refl,
  λ r h. causation-IsAccepted (some k) none r h,
  causation-Accepts (some k) none,
)
inspected (some t) k = (
  refl,
  correlation_decided t k,
  correlation_parsed (some t),
  λ r h. causation-IsAccepted k (inspect_correlation (some t)).1 r h,
  causation-Accepts k (inspect_correlation (some t)).1,
)

-- Inspected hints: the decision is fresh without hints, continued if the correlation parses and restarted
-- otherwise; the correlation is the parsed one; an accepted cause has the kind of the causation hint and its
-- parsed identifier; and the hint is accepted exactly if its kind is one of a reference, its identifier parses
-- and the correlation is accepted too.
pub inspect_incoming-Inspected : (h : Hints) → Inspected h (inspect_incoming h)
inspect_incoming-Inspected h = inspected h.correlation h.causation
