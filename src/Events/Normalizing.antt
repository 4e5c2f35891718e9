-- ===== src/Events/Normalizing.antt =====
-- The members that decoding writes anew (src/shared/events/index.ts).
use modular_hx_fastapi.Common.{
  Bool-cases, List, Props, String, Text, Value, [], ap, arith, codes, end, false, inl, inr, is_iff,
  is_self, prop, refl, same, string, true, ◌is◌, ◌∙◌, ◌∷◌, ◌≡◌,
}
use modular_hx_fastapi.Provenance.{WorkContext}
use modular_hx_fastapi.Events.Works.{field, work_out}
use modular_hx_fastapi.Events.Envelopes.{
  count_keys, envelope_keys, has_key_named, has_keys, set_prop, valid_head,
}

field-set_prop : (key : String) (v : Value) (ps : Props) → field key (set_prop key v ps) ≡ v
unfolding field set_prop
field-set_prop key v end = ground (arith, is_self key)
field-set_prop key v (prop k u ps) = elim (Bool-cases (k is key)) [
  | inl e ↦ ground arith
  | inr e ↦ ground (arith, field-set_prop key v ps)
]

field-set_prop_other :
    (key other : String) (v : Value) (ps : Props)
    → (codes key is other) ≡ false
    → field other (set_prop key v ps) ≡ field other ps
unfolding field set_prop
field-set_prop_other key other v end h = ground arith
field-set_prop_other key other v (prop k u ps) h = elim (Bool-cases (k is key)) [
  | inl e ↦
      let same_key = (is_iff k key).0 e in
      let differs : (k is other) ≡ false = ap (λ (x : Text). x is other) same_key ∙ h in
      ground arith
  | inr e ↦ elim (Bool-cases (k is other)) [
    | inl d ↦ ground arith
    | inr d ↦ ground (arith, field-set_prop_other key other v ps)
  ]
]

has_key_named-set_prop :
    (key other : String) (v : Value) (ps : Props)
    → has_key_named key ps ≡ true
    → has_key_named other (set_prop key v ps) ≡ has_key_named other ps
unfolding has_key_named set_prop
has_key_named-set_prop key other v end h = absurd (ground arith)
has_key_named-set_prop key other v (prop k u ps) h = elim (Bool-cases (k is key)) [
  | inl e ↦ ground arith
  | inr e ↦ ground (arith, has_key_named-set_prop key other v ps)
]

count_keys-set_prop :
    (key : String) (v : Value) (ps : Props)
    → has_key_named key ps ≡ true
    → count_keys (set_prop key v ps) ≡ count_keys ps
unfolding has_key_named set_prop
count_keys-set_prop key v end h = absurd (ground arith)
count_keys-set_prop key v (prop k u ps) h = elim (Bool-cases (k is key)) [
  | inl e ↦ ground arith
  | inr e ↦ ground (arith, count_keys-set_prop key v ps)
]

set_prop-same :
    (key : String) (v : Value) (ps : Props)
    → has_key_named key ps ≡ true
    → field key ps ≡ v
    → set_prop key v ps ≡ ps
unfolding has_key_named set_prop field
set_prop-same key v end h e = absurd (ground arith)
set_prop-same key v (prop k u ps) h e = elim (Bool-cases (k is key)) [
  | inl d ↦ ground arith
  | inr d ↦ ground (arith, set_prop-same key v ps)
]

has_keys-set_prop :
    (key : String) (v : Value) (ks : List String) (ps : Props)
    → has_key_named key ps ≡ true
    → has_keys ks (set_prop key v ps) ≡ has_keys ks ps
has_keys-set_prop key v [] ps h = refl
has_keys-set_prop key v (k ∷ ks) ps h =
    rw (has_key_named-set_prop key k v ps h, has_keys-set_prop key v ks ps h)

-- A member that the tests of the head do not read.
abbrev IsPassive : String → Type 0
IsPassive key =
    ((codes key is "v") ≡ false)
    × ((codes key is "type") ≡ false)
    × ((codes key is "occurred_at_ms") ≡ false)

valid_head-set_prop :
    (key : String) (v : Value) (ps : Props)
    → IsPassive key
    → has_key_named key ps ≡ true
    → valid_head (set_prop key v ps) ≡ valid_head ps
unfolding valid_head
valid_head-set_prop key v ps (a, b, c) h = rw (
  count_keys-set_prop key v ps h,
  has_keys-set_prop key v envelope_keys ps h,
  field-set_prop_other key "v" v ps a,
  field-set_prop_other key "type" v ps b,
  field-set_prop_other key "occurred_at_ms" v ps c,
)

id_IsPassive : IsPassive "id"
unfolding ◌is◌ same
id_IsPassive = (refl, refl, refl)

work_IsPassive : IsPassive "work"
unfolding ◌is◌ same
work_IsPassive = (refl, refl, refl)

apart :
    ((codes "work" is "id") ≡ false)
    × ((codes "work" is "payload") ≡ false)
    × ((codes "id" is "payload") ≡ false)
    × ((codes "id" is "work") ≡ false)
unfolding ◌is◌ same
apart = (refl, refl, refl, refl)

head_keys :
    (ps : Props)
    → valid_head ps ≡ true
    → (has_key_named "id" ps ≡ true) × (has_key_named "work" ps ≡ true)
unfolding valid_head
head_keys ps h = ground arith

-- What `decode` stores.
abbrev pub normalized : Text → WorkContext → Props → Props
normalized id work w = set_prop "work" (work_out work) (set_prop "id" (string id) w)

module _ (id : Text) (work : WorkContext) (w : Props) (head : valid_head w ≡ true) where
  has_id_key : has_key_named "id" (normalized id work w) ≡ true
  has_id_key =
      let (i, k) = head_keys w head in
      has_key_named-set_prop "work" "id" (work_out work) (set_prop "id" (string id) w)
        (has_key_named-set_prop "id" "work" (string id) w i ∙ k)
      ∙ has_key_named-set_prop "id" "id" (string id) w i
      ∙ i

  has_work_key : has_key_named "work" (normalized id work w) ≡ true
  has_work_key =
      let (i, k) = head_keys w head in
      has_key_named-set_prop "work" "work" (work_out work) (set_prop "id" (string id) w)
        (has_key_named-set_prop "id" "work" (string id) w i ∙ k)
      ∙ has_key_named-set_prop "id" "work" (string id) w i
      ∙ k

  pub normalized_id : field "id" (normalized id work w) ≡ string id
  normalized_id =
      field-set_prop_other "work" "id" (work_out work) (set_prop "id" (string id) w) apart.0
      ∙ field-set_prop "id" (string id) w

  pub normalized_work : field "work" (normalized id work w) ≡ work_out work
  normalized_work = field-set_prop "work" (work_out work) (set_prop "id" (string id) w)

  pub normalized_payload : field "payload" (normalized id work w) ≡ field "payload" w
  normalized_payload =
      field-set_prop_other "work" "payload" (work_out work) (set_prop "id" (string id) w) apart.1
      ∙ field-set_prop_other "id" "payload" (string id) w apart.2

  pub normalized_head : valid_head (normalized id work w) ≡ true
  normalized_head =
      let (i, k) = head_keys w head in
      valid_head-set_prop "work" (work_out work) (set_prop "id" (string id) w) work_IsPassive
        (has_key_named-set_prop "id" "work" (string id) w i ∙ k)
      ∙ valid_head-set_prop "id" (string id) w id_IsPassive i
      ∙ head

  pub normalized_twice : normalized id work (normalized id work w) ≡ normalized id work w
  normalized_twice =
      ap (set_prop "work" (work_out work))
        (set_prop-same "id" (string id) (normalized id work w) has_id_key normalized_id)
      ∙ set_prop-same "work" (work_out work) (normalized id work w) has_work_key normalized_work
