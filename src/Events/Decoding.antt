-- ===== src/Events/Decoding.antt =====
-- A decoded envelope decodes again, and unchanged (src/shared/events/index.ts).
use modular_hx_fastapi.Common.{
  Bool-cases, Option-cases, Props, Text, Value, ap, arith, array, bool, inl, inr, leb, length, ltb,
  null, number, object, opaque, refl, some, string, subst, sym, true, ◌∙◌, ◌≡◌,
}
use modular_hx_fastapi.Events.Works.{
  field, id_in, object_of, require, text_of, value_of, work_in, work_out, ◌>>◌,
}
use modular_hx_fastapi.Events.Envelopes.{
  Envelope, Json, decode_envelope, max_bytes, normalized_value, read_envelope, valid_head,
}
use modular_hx_fastapi.Identifiers.{parse}
use modular_hx_fastapi.Identifiers.Canonical.{parse-again}
use modular_hx_fastapi.Provenance.{WorkContext}
use modular_hx_fastapi.Events.Fields.{bind-reads, bind-then, check-reads, check-some, value_of-some}
use modular_hx_fastapi.Errors.{ok}
use modular_hx_fastapi.Events.Restoring.{work_in-IsReadWork, work_out-reads}
use modular_hx_fastapi.Events.Normalizing.{
  normalized, normalized_head, normalized_id, normalized_payload, normalized_twice, normalized_work,
}

id_in-again : (v : Value) (id : Text) → id_in v ≡ some id → id_in (string id) ≡ some id
unfolding id_in
id_in-again v id h =
    bind-then (id_in (string id) ≡ some id) (text_of v) h
      (λ t e k. ap value_of (parse-again t id (value_of-some (parse (string t)) id k)))

-- JSON text of a value that was parsed, with its identifier and its work written anew, parses to that value. The
-- numbers that are no integers are one value here, so this says nothing of which of them is parsed, and it speaks
-- of payloads without a number beyond the finite ones, which JSON.stringify writes as null.
abbrev pub IsJson : Json → Type 0
IsJson j =
    (raw : Text) (w : Props) (id : Text) (work : WorkContext)
    → j.parse_bytes raw ≡ some (object w)
    → id_in (field "id" w) ≡ some id
    → work_in (field "work" w) ≡ some work
    → j.parse_bytes (j.stringify (normalized_value id work w)) ≡ some (normalized_value id work w)

module _ (j : Json) where
  -- What a reading has found.
  record IsRead (v : Value) (e : Envelope) : Type 0 where
    members : Props
    is_object : v ≡ object members
    head : valid_head members ≡ true
    payload : (ps : Props) × (object_of (field "payload" members) ≡ some ps)
    read_id : id_in (field "id" members) ≡ some e.id
    read : work_in (field "work" members) ≡ some e.work
    text : e.raw ≡ j.stringify (normalized_value e.id e.work members)
    small : leb (length e.raw) max_bytes ≡ true

  object_of-object : (v : Value) (ps : Props) → object_of v ≡ some ps → v ≡ object ps
  object_of-object Value.undefined ps h = absurd (ground arith)
  object_of-object null ps h = absurd (ground arith)
  object_of-object (bool b) ps h = absurd (ground arith)
  object_of-object (number n) ps h = absurd (ground arith)
  object_of-object (string t) ps h = absurd (ground arith)
  object_of-object (array xs) ps h = absurd (ground arith)
  object_of-object (object qs) ps h = ground arith
  object_of-object (opaque i) ps h = absurd (ground arith)

  gathered :
      (v : Value) (w ps : Props) (id : Text) (work : WorkContext) (e : Envelope)
      → object_of v ≡ some w
      → valid_head w ≡ true
      → object_of (field "payload" w) ≡ some ps
      → id_in (field "id" w) ≡ some id
      → work_in (field "work" w) ≡ some work
      → (require (leb (length (j.stringify (normalized_value id work w))) max_bytes)
          >> some (record { id = id; raw = j.stringify (normalized_value id work w); work = work }))
        ≡ some e
      → IsRead v e
  gathered v w ps id work e o head p i k h =
      let (small, made) =
        check-some (leb (length (j.stringify (normalized_value id work w))) max_bytes) _ e h in
      let there : record { id = id; raw = j.stringify (normalized_value id work w); work = work }
          ≡ e =
        ground arith in
      subst (IsRead v) there (record {
        members = w;
        is_object = object_of-object v w o;
        head = head;
        payload = (ps, p);
        read_id = i;
        read = k;
        text = refl;
        small = small;
      })

  read_envelope-IsRead : (v : Value) (e : Envelope) → read_envelope j v ≡ some e → IsRead v e
  unfolding read_envelope
  read_envelope-IsRead v e h = bind-then (IsRead v e) (object_of v) h (λ w o h1.
      let (head, h2) = check-some (valid_head w) _ e h1 in
      bind-then (IsRead v e) (object_of (field "payload" w)) h2 (λ ps p h3.
        bind-then (IsRead v e) (id_in (field "id" w)) h3 (λ id i h4.
          bind-then (IsRead v e) (work_in (field "work" w)) h4
            (λ work k h5. gathered v w ps id work e o head p i k h5))))

  -- The normalised members are read as the envelope that they came from.
  normalized-reads :
      (v : Value) (e : Envelope) (r : IsRead v e)
      → read_envelope j (object (normalized e.id e.work r.members)) ≡ some e
  unfolding read_envelope normalized_value
  normalized-reads v e r =
      let n = normalized e.id e.work r.members in
      let (ps, p) = r.payload in
      let (known, parts) = work_in-IsReadWork (field "work" r.members) e.work r.read in
      let same_raw : j.stringify (normalized_value e.id e.work n) ≡ e.raw =
        ap (λ (x : Props). j.stringify (object x)) (normalized_twice e.id e.work r.members r.head)
        ∙ sym r.text in
      check-reads (valid_head n) _ _ (normalized_head e.id e.work r.members r.head) (
        bind-reads (object_of (field "payload" n)) _ ps _
          (ap object_of (normalized_payload e.id e.work r.members r.head) ∙ p)
          (bind-reads (id_in (field "id" n)) _ e.id _
            (ap id_in (normalized_id e.id e.work r.members r.head)
              ∙ id_in-again (field "id" r.members) e.id r.read_id)
            (bind-reads (work_in (field "work" n)) _ e.work _
              (ap work_in (normalized_work e.id e.work r.members r.head)
                ∙ ap (λ (c : WorkContext). work_in (work_out c)) known
                ∙ work_out-reads e.work.snapshot parts
                ∙ ap some (sym known))
              (check-reads (leb (length (j.stringify (normalized_value e.id e.work n))) max_bytes) _
                _ (ap (λ (t : Text). leb (length t) max_bytes) same_raw ∙ r.small)
                (ap (λ (t : Text). some (record { id = e.id; raw = t; work = e.work }))
                  same_raw)))))

  decode_parts :
      (raw : Text) (e : Envelope)
      → decode_envelope j raw ≡ ok e
      → (v : Value) × (j.parse_bytes raw ≡ some v) × (read_envelope j v ≡ some e)
  unfolding decode_envelope
  decode_parts raw e h = elim (Bool-cases (ltb max_bytes (length raw))) [
    | inl k ↦ absurd (ground arith)
    | inr k ↦ elim (Option-cases (j.parse_bytes raw)) [
      | inl p ↦ absurd (ground arith)
      | inr (v, p) ↦ elim (Option-cases (read_envelope j v)) [
        | inl q ↦ absurd (ground arith)
        | inr (f, q) ↦ (v, p, ground arith)
      ]
    ]
  ]

  decode_of_read :
      (raw : Text) (v : Value) (e : Envelope)
      → leb (length raw) max_bytes ≡ true
      → j.parse_bytes raw ≡ some v
      → read_envelope j v ≡ some e
      → decode_envelope j raw ≡ ok e
  unfolding decode_envelope
  decode_of_read raw v e small p q = ground arith

  -- The text of a decoded envelope decodes to that envelope: its identifier, its work and its text are kept,
  -- if the JSON of the platform gives back what was written.
  pub decode_envelope-again :
      (raw : Text) (e : Envelope)
      → IsJson j
      → decode_envelope j raw ≡ ok e
      → decode_envelope j e.raw ≡ ok e
  unfolding normalized_value
  decode_envelope-again raw e json h =
      let (v, p, q) = decode_parts raw e h in
      let r = read_envelope-IsRead v e q in
      let parsed : j.parse_bytes e.raw ≡ some (object (normalized e.id e.work r.members)) =
        ap j.parse_bytes r.text
        ∙ json raw r.members e.id e.work (p ∙ ap some r.is_object) r.read_id r.read in
      decode_of_read e.raw (object (normalized e.id e.work r.members)) e r.small parsed
        (normalized-reads v e r)
