-- ===== src/Events/Reading.antt =====
-- An actor that was read from a value is read again from the value that it is written to (src/shared/events/index.ts).
use modular_hx_fastapi.Common.{
  Bool-cases, Num, Option, String, Text, Value, [], ap, arith, inl, inr, none, object, refl, same,
  some, string, subst, sym, true, ◌is◌, ◌∙◌, ◌∷◌, ◌≡◌,
}
use modular_hx_fastapi.Errors.{ok}
use modular_hx_fastapi.Provenance.{Actor, actor, is_empty}
use modular_hx_fastapi.Events.Works.{
  actor_in, actor_out, field, number_of, number_value, object_of, only_keys, optional,
  or_empty_text, string_value, text_of, value_of,
}
use modular_hx_fastapi.Events.Fields.{
  Members, bind-reads, bind-some, check-reads, check-some, field-written, member, named_among,
  only_keys-written, optional-reads, optional-some, or_undefined, value_of-some, written,
}

-- The value of an actor.
abbrev actor_members : Actor → Members
actor_members a = ("kind", some (string a.kind)) ∷ ("identity", string_value a.identity) ∷ []

abbrev actor_value : Actor → Value
actor_value a = object (written (actor_members a))

pub text_reads : (o : Option Text) → optional text_of (or_undefined (string_value o)) ≡ some o
text_reads none = refl
text_reads (some t) = refl

pub number_reads : (o : Option Num) → optional number_of (or_undefined (number_value o)) ≡ some o
number_reads none = refl
number_reads (some n) = refl

-- A value that was read as an actor is read so again from its parts.
abbrev pub IsActor : Actor → Type 0
IsActor a = actor a.kind (or_empty_text a.identity) ≡ ok a

actor-again : (kind identity : Text) (a : Actor) → actor kind identity ≡ ok a → IsActor a
unfolding actor
actor-again kind identity a h = elim (Bool-cases (kind is "anonymous")) [
  | inl e ↦ elim (Bool-cases (is_empty identity)) [
    | inl k ↦
        let made : record { known = true; kind = kind; identity = none } ≡ a = ground arith in
        subst IsActor made (ground arith)
    | inr k ↦ absurd (ground arith)
  ]
  | inr e ↦
      let made : record { known = true; kind = kind; identity = some identity } ≡ a =
        ground arith in
      subst IsActor made (ground arith)
]

actor_named : (a : Actor) → named_among ("kind" ∷ "identity" ∷ []) (actor_members a) ≡ true
unfolding named_among ◌is◌ same
actor_named a = refl

actor_kind : (a : Actor) → member "kind" (actor_members a) ≡ some (string a.kind)
unfolding member ◌is◌ same
actor_kind a = refl

actor_identity : (a : Actor) → member "identity" (actor_members a) ≡ string_value a.identity
unfolding member ◌is◌ same
actor_identity a = refl

-- Reading a member that was written.
pub member_reads :
    {A : Type 0} (read : Value → A) (key : String) (ms : Members) (o : Option Value)
    → member key ms ≡ o
    → read (field key (written ms)) ≡ read (or_undefined o)
member_reads read key ms o h = ap read (field-written key ms ∙ ap or_undefined h)

actor_value-reads : (a : Actor) → IsActor a → actor_in (actor_value a) ≡ some a
unfolding actor_in
actor_value-reads a h =
    let ms = actor_members a in
    check-reads (only_keys ("kind" ∷ "identity" ∷ []) (written ms)) _ _
      (only_keys-written ("kind" ∷ "identity" ∷ []) ms (actor_named a))
      (bind-reads (text_of (field "kind" (written ms))) _ a.kind _
        (member_reads text_of "kind" ms (some (string a.kind)) (actor_kind a))
        (bind-reads (optional text_of (field "identity" (written ms))) _ a.identity _
          (member_reads (optional text_of) "identity" ms (string_value a.identity)
              (actor_identity a)
            ∙ text_reads a.identity)
          (ap value_of h)))

actor_in-IsActor : (v : Value) (a : Actor) → actor_in v ≡ some a → IsActor a
unfolding actor_in
actor_in-IsActor v a h =
    let (ps, o, h1) = bind-some (object_of v) _ a h in
    let (keys, h2) = check-some (only_keys ("kind" ∷ "identity" ∷ []) ps) _ a h1 in
    let (kind, k, h3) = bind-some (text_of (field "kind" ps)) _ a h2 in
    let (identity, i, h4) = bind-some (optional text_of (field "identity" ps)) _ a h3 in
    actor-again kind (or_empty_text identity) a (value_of-some _ a h4)

-- An optional actor of an attribution.
abbrev pub IsActorOption : Option Actor → Type 0
IsActorOption none = Unit
IsActorOption (some a) = IsActor a

pub actor_out-reads :
    (o : Option Actor) → IsActorOption o → optional actor_in (or_undefined (actor_out o)) ≡ some o
unfolding actor_out
actor_out-reads none h = refl
actor_out-reads (some a) h = optional-reads actor_in (actor_value a) a refl (actor_value-reads a h)

pub optional-IsActor :
    (v : Value) (o : Option Actor) → optional actor_in v ≡ some o → IsActorOption o
optional-IsActor v o h = elim (optional-some actor_in v o h) [
  | inl e ↦ subst IsActorOption (sym e) tt
  | inr (a, e, r) ↦ subst IsActorOption (sym e) (actor_in-IsActor v a r)
]
