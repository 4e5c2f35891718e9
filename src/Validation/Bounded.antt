-- ===== src/Validation/Bounded.antt =====
-- A report is the first 32 distinct fields of what was added (src/shared/validation/index.ts).
use modular_hx_fastapi.Common.{
  Bool-cases, Text, [], any-take, ap, arith, false, if◌then◌else◌, inl, inr, length, length-append,
  length-take, ltb, ltb→lt, lt→ltb, not, refl, same, subst, sym, take, take-all, take-append-long,
  true, ◌&&◌, ◌++◌, ◌<◌, ◌∙◌, ◌∷◌, ◌≡◌, ◌≤◌, ◌⊎◌,
}
use modular_hx_fastapi.Errors.{Fields}
use modular_hx_fastapi.Validation.Reports.{Report, add, has_field, new_report, valid_issue}

-- The calls of `add` in order.
abbrev pub add_all : Fields → Report → Report
add_all [] r = r
add_all ((field, code) ∷ more) r = add_all more (add field code r).1

-- The distinct valid fields in order of their first occurrence, each with its first code, without a bound.
abbrev pub with_issue : Fields → Text → Text → Fields
with_issue m field code =
    if valid_issue field code && not (has_field field m) then m ++ (field, code) ∷ [] else m

abbrev pub distinct_issues : Fields → Fields → Fields
distinct_issues m [] = m
distinct_issues m ((field, code) ∷ more) = distinct_issues (with_issue m field code) more

-- The part of the fields that a report holds.
unfoldable pub kept : Fields → Fields
kept m = take 32 m

abbrev pub Agrees : Fields → Report → Type 0
Agrees m r = (r.issues ≡ kept m) × (r.truncated ≡ ltb 32 (length m))

kept-all : (m : Fields) → length m ≤ 32 → kept m ≡ m
unfolding kept
kept-all m h = take-all 32 m h

kept-append : (m n : Fields) → 32 ≤ length m → kept (m ++ n) ≡ kept m
unfolding kept
kept-append m n h = take-append-long 32 m n h

length-kept : (m : Fields) → 32 ≤ length m → length (kept m) ≡ 32
unfolding kept
length-kept m h = length-take 32 m h

has_field-kept :
    (field : Text) (m : Fields) → has_field field m ≡ false → has_field field (kept m) ≡ false
unfolding kept
has_field-kept field m h = any-take (λ (e : Text × Text). same field e.0) 32 m h

known_field :
    (field : Text) (m : Fields)
    → has_field field m ≡ true
    → has_field field (kept m) ≡ false
    → 32 < length m
known_field field m h k = elim (Bool-cases (ltb 32 (length m))) [
  | inl l ↦ ltb→lt 32 (length m) l
  | inr g ↦ absurd (ground (arith, kept-all m (ground arith)))
]

-- The three ways in which a call with a valid issue ends.
add-present :
    (field code : Text) (r : Report) → has_field field r.issues ≡ true → (add field code r).1 ≡ r
unfolding add
add-present field code r h = elim (Bool-cases (valid_issue field code)) [
  | inl v ↦ ground arith
  | inr v ↦ ground arith
]

add-full :
    (field code : Text) (r : Report)
    → valid_issue field code ≡ true
    → has_field field r.issues ≡ false
    → length r.issues ≡ 32
    → (add field code r).1 ≡ record r { truncated = true }
unfolding add
add-full field code r v h n = ground arith

add-room :
    (field code : Text) (r : Report)
    → valid_issue field code ≡ true
    → has_field field r.issues ≡ false
    → length r.issues < 32
    → (add field code r).1 ≡ record r { issues = r.issues ++ (field, code) ∷ [] }
unfolding add
add-room field code r v h n = ground arith

add-known :
    (field code : Text) (m : Fields) (r : Report)
    → Agrees m r
    → valid_issue field code ≡ true
    → has_field field m ≡ true
    → Agrees m (add field code r).1
add-known field code m r (i, t) v h = elim (Bool-cases (has_field field r.issues)) [
  | inl k ↦ subst (Agrees m) (sym (add-present field code r k)) (i, t)
  | inr k ↦
      let n = known_field field m h (ap (has_field field) (sym i) ∙ k) in
      let full = ap length i ∙ length-kept m (omega arith) in
      subst (Agrees m) (sym (add-full field code r v k full)) (i, sym (lt→ltb 32 (length m) n))
]

-- The unbounded list grows by a field.
add-new :
    (field code : Text) (m : Fields) (r : Report)
    → Agrees m r
    → valid_issue field code ≡ true
    → has_field field m ≡ false
    → Agrees (m ++ (field, code) ∷ []) (add field code r).1
add-new field code m r (i, t) v h =
    let absent : has_field field r.issues ≡ false =
      ap (has_field field) i ∙ has_field-kept field m h in
    let longer = length-append m ((field, code) ∷ []) in
    elim (Bool-cases (ltb (length m) 32)) [
      | inl l ↦
          let few = ltb→lt (length m) 32 l in
          let whole = kept-all m (omega arith) in
          let grown = kept-all (m ++ (field, code) ∷ []) (omega arith) in
          let room =
            add-room field code r v absent
              (subst (λ (q : Fields). length q < 32) (sym (i ∙ whole)) few) in
          subst (Agrees (m ++ (field, code) ∷ [])) (sym room)
            (ap (λ (q : Fields). q ++ (field, code) ∷ []) (i ∙ whole) ∙ sym grown, ground arith)
      | inr g ↦
          let many : 32 ≤ length m = ground arith in
          let full = add-full field code r v absent (ap length i ∙ length-kept m many) in
          subst (Agrees (m ++ (field, code) ∷ [])) (sym full)
            (i ∙ sym (kept-append m ((field, code) ∷ []) many), ground arith)
    ]

add-invalid :
    (field code : Text) (r : Report) → valid_issue field code ≡ false → (add field code r).1 ≡ r
unfolding add
add-invalid field code r v = ground arith

with_issue-cases :
    (m : Fields) (field code : Text)
    → ((valid_issue field code ≡ false) × (with_issue m field code ≡ m))
      ⊎ (((valid_issue field code ≡ true)
            × (has_field field m ≡ true)
            × (with_issue m field code ≡ m))
          ⊎ ((valid_issue field code ≡ true)
              × (has_field field m ≡ false)
              × (with_issue m field code ≡ m ++ (field, code) ∷ [])))
with_issue-cases m field code = elim (Bool-cases (valid_issue field code)) [
  | inr v ↦ inl (v, ground arith)
  | inl v ↦ elim (Bool-cases (has_field field m)) [
    | inl h ↦ inr (inl (v, h, ground arith))
    | inr h ↦ inr (inr (v, h, ground arith))
  ]
]

add-Agrees :
    (field code : Text) (m : Fields) (r : Report)
    → Agrees m r
    → Agrees (with_issue m field code) (add field code r).1
add-Agrees field code m r a = elim (with_issue-cases m field code) [
  | inl (v, e) ↦
      subst (λ (n : Fields). Agrees n (add field code r).1) (sym e)
        (subst (Agrees m) (sym (add-invalid field code r v)) a)
  | inr (inl (v, h, e)) ↦
      subst (λ (n : Fields). Agrees n (add field code r).1) (sym e) (add-known field code m r a v h)
  | inr (inr (v, h, e)) ↦
      subst (λ (n : Fields). Agrees n (add field code r).1) (sym e) (add-new field code m r a v h)
]

add_all-Agrees :
    (calls m : Fields) (r : Report)
    → Agrees m r
    → Agrees (distinct_issues m calls) (add_all calls r)
add_all-Agrees [] m r a = a
add_all-Agrees ((field, code) ∷ more) m r a =
    add_all-Agrees more (with_issue m field code) (add field code r).1 (add-Agrees field code m r a)

-- After any calls of `add`, the issues are the first 32 of the distinct valid fields, each with the code it
-- was first added with, and the report is truncated exactly if there are more than 32.
pub add_all-bounded :
    (calls : Fields) → Agrees (distinct_issues [] calls) (add_all calls new_report)
unfolding new_report kept
add_all-bounded calls = add_all-Agrees calls [] new_report (refl, refl)
