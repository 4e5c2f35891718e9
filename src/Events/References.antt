-- ===== src/Events/References.antt =====
-- A reference that was read is read again from what it is written to (src/shared/events/index.ts).
use modular_hx_fastapi.Common.{
  Bool-cases, Option, Text, Value, [], ap, arith, inl, inr, none, object, refl, same, same_iff,
  some, string, subst, sym, true, ◌is◌, ◌∙◌, ◌∷◌, ◌≡◌,
}
use modular_hx_fastapi.Errors.{Result-cases, ok}
use modular_hx_fastapi.Identifiers.{parse}
use modular_hx_fastapi.Provenance.{Reference, reference, valid_id, valid_reference_kind}
use modular_hx_fastapi.Events.Works.{
  field, id_in, object_of, only_keys, optional, ref_in, ref_out, text_of, value_of,
}
use modular_hx_fastapi.Events.Fields.{
  Members, bind-reads, bind-some, check-reads, check-some, member, named_among, only_keys-written,
  optional-reads, optional-some, or_undefined, value_of-some, written,
}
use modular_hx_fastapi.Events.Reading.{member_reads}

pub id_in-reads : (id : Text) → valid_id id ≡ true → id_in (string id) ≡ some id
unfolding id_in valid_id
id_in-reads id h = elim (Result-cases (parse (string id))) [
  | inl (x, e) ↦ let same_id : x ≡ id = (same_iff x id).0 (ground arith) in ground arith
  | inr (f, e) ↦ absurd (ground arith)
]

abbrev reference_members : Reference → Members
reference_members r = ("kind", some (string r.kind)) ∷ ("id", some (string r.id)) ∷ []

abbrev reference_value : Reference → Value
reference_value r = object (written (reference_members r))

-- A reference that is made from its parts.
abbrev pub IsReference : Reference → Type 0
IsReference r = (reference r.kind r.id ≡ ok r) × (valid_id r.id ≡ true)

reference-again : (kind id : Text) (r : Reference) → reference kind id ≡ ok r → IsReference r
unfolding reference
reference-again kind id r h = elim (Bool-cases (valid_id id)) [
  | inr k ↦ absurd (ground arith)
  | inl k ↦ elim (Bool-cases (valid_reference_kind kind)) [
    | inr e ↦ absurd (ground arith)
    | inl e ↦
        let made : record { known = true; kind = kind; id = id } ≡ r = ground arith in
        subst IsReference made (ground arith, k)
  ]
]

reference_named : (r : Reference) → named_among ("kind" ∷ "id" ∷ []) (reference_members r) ≡ true
unfolding named_among ◌is◌ same
reference_named r = refl

reference_kind : (r : Reference) → member "kind" (reference_members r) ≡ some (string r.kind)
unfolding member ◌is◌ same
reference_kind r = refl

reference_id : (r : Reference) → member "id" (reference_members r) ≡ some (string r.id)
unfolding member ◌is◌ same
reference_id r = refl

reference_value-reads : (r : Reference) → IsReference r → ref_in (reference_value r) ≡ some r
unfolding ref_in
reference_value-reads r (h, v) =
    let ms = reference_members r in
    check-reads (only_keys ("kind" ∷ "id" ∷ []) (written ms)) _ _
      (only_keys-written ("kind" ∷ "id" ∷ []) ms (reference_named r))
      (bind-reads (text_of (field "kind" (written ms))) _ r.kind _
        (member_reads text_of "kind" ms (some (string r.kind)) (reference_kind r))
        (bind-reads (id_in (field "id" (written ms))) _ r.id _
          (member_reads id_in "id" ms (some (string r.id)) (reference_id r) ∙ id_in-reads r.id v)
          (ap value_of h)))

ref_in-IsReference : (v : Value) (r : Reference) → ref_in v ≡ some r → IsReference r
unfolding ref_in
ref_in-IsReference v r h =
    let (ps, o, h1) = bind-some (object_of v) _ r h in
    let (keys, h2) = check-some (only_keys ("kind" ∷ "id" ∷ []) ps) _ r h1 in
    let (kind, k, h3) = bind-some (text_of (field "kind" ps)) _ r h2 in
    let (id, i, h4) = bind-some (id_in (field "id" ps)) _ r h3 in
    reference-again kind id r (value_of-some _ r h4)

abbrev pub IsReferenceOption : Option Reference → Type 0
IsReferenceOption none = Unit
IsReferenceOption (some r) = IsReference r

pub ref_out-reads :
    (o : Option Reference)
    → IsReferenceOption o
    → optional ref_in (or_undefined (ref_out o)) ≡ some o
unfolding ref_out
ref_out-reads none h = refl
ref_out-reads (some r) h =
    optional-reads ref_in (reference_value r) r refl (reference_value-reads r h)

pub optional-IsReference :
    (v : Value) (o : Option Reference) → optional ref_in v ≡ some o → IsReferenceOption o
optional-IsReference v o h = elim (optional-some ref_in v o h) [
  | inl e ↦ subst IsReferenceOption (sym e) tt
  | inr (r, e, k) ↦ subst IsReferenceOption (sym e) (ref_in-IsReference v r k)
]
