-- ===== src/Events/Fields.antt =====
-- Reading the members of a JSON object that was written member by member (src/shared/events/index.ts).
use modular_hx_fastapi.Common.{
  Bool, Bool-cases, List, Option, Option-cases, Props, String, Value, [], and_parts, ap, arith,
  codes, end, false, if◌then◌else◌, inl, inr, none, one_of, refl, some, true, ◌&&◌, ◌is◌, ◌∙◌, ◌∷◌,
  ◌≡◌, ◌⊎◌,
}
use modular_hx_fastapi.Errors.{Failure, Result, err, ok}
use modular_hx_fastapi.Events.Works.{
  field, is_nullish, only_keys, optional, require, value_of, with_prop, ◌>>=◌, ◌>>◌,
}

-- The members of an object, in order; a member that is undefined is left out.
abbrev pub Members : Type 0
Members = List (String × Option Value)

abbrev pub written : Members → Props
written [] = end
written ((k, o) ∷ ms) = with_prop k o (written ms)

abbrev pub or_undefined : Option Value → Value
or_undefined none = Value.undefined
or_undefined (some v) = v

abbrev pub first_of : Option Value → Option Value → Option Value
first_of o later = elim later [ none ↦ o | some v ↦ elim o [ none ↦ some v | some u ↦ some u ] ]

-- The member of a name.
unfoldable pub member : String → Members → Option Value
member key [] = none
member key ((k, o) ∷ ms) =
    let later = member key ms in if codes k is key then first_of o later else later

first_of-some : (v : Value) (later : Option Value) → first_of (some v) later ≡ some v
first_of-some v none = refl
first_of-some v (some u) = refl

first_of-none : (later : Option Value) → first_of none later ≡ later
first_of-none none = refl
first_of-none (some u) = refl

pub field-written :
    (key : String) (ms : Members) → field key (written ms) ≡ or_undefined (member key ms)
unfolding field member
field-written key [] = refl
field-written key ((k, none) ∷ ms) = elim (Bool-cases (codes k is key)) [
  | inl e ↦ ground (arith, field-written key ms, first_of-none (member key ms))
  | inr e ↦ ground (arith, field-written key ms)
]
field-written key ((k, some v) ∷ ms) = elim (Bool-cases (codes k is key)) [
  | inl e ↦ ground (arith, first_of-some v (member key ms))
  | inr e ↦ ground (arith, field-written key ms)
]

-- Every name is one of those allowed.
unfoldable pub named_among : List String → Members → Bool
named_among allowed [] = true
named_among allowed ((k, o) ∷ ms) = one_of (codes k) allowed && named_among allowed ms

pub only_keys-written :
    (allowed : List String) (ms : Members)
    → named_among allowed ms ≡ true
    → only_keys allowed (written ms) ≡ true
unfolding named_among only_keys
only_keys-written allowed [] h = refl
only_keys-written allowed ((k, none) ∷ ms) h =
    only_keys-written allowed ms (and_parts (one_of (codes k) allowed) (named_among allowed ms) h).1
only_keys-written allowed ((k, some v) ∷ ms) h =
    let (here, later) = and_parts (one_of (codes k) allowed) (named_among allowed ms) h in
    rw (here, only_keys-written allowed ms later)

-- What a chain of readings has read.
pub bind-some :
    {A B : Type 0} (o : Option A) (next : A → Option B) (b : B)
    → (o >>= next) ≡ some b
    → (a : A) × (o ≡ some a) × (next a ≡ some b)
bind-some none next b h = absurd (ground arith)
bind-some (some a) next b h = (a, refl, h)

pub check-some :
    {B : Type 0} (test : Bool) (rest : Option B) (b : B)
    → (require test >> rest) ≡ some b
    → (test ≡ true) × (rest ≡ some b)
check-some true rest b h = (refl, h)
check-some false rest b h = absurd (ground arith)

pub bind-reads :
    {A B : Type 0} (o : Option A) (next : A → Option B) (a : A) (b : Option B)
    → o ≡ some a
    → next a ≡ b
    → (o >>= next) ≡ b
bind-reads o next a b h k = ap (λ x. x >>= next) h ∙ k

pub check-reads :
    {B : Type 0} (test : Bool) (rest b : Option B)
    → test ≡ true
    → rest ≡ b
    → (require test >> rest) ≡ b
check-reads test rest b h k = ap (λ x. require x >> rest) h ∙ k

pub value_of-some : {A : Type 0} (r : Result A Failure) (a : A) → value_of r ≡ some a → r ≡ ok a
value_of-some (ok x) a h = ground arith
value_of-some (err f) a h = absurd (ground arith)

-- A reading of an optional member: it is missing, or it is read.
pub optional-some :
    {A : Type 0} (read : Value → Option A) (v : Value) (o : Option A)
    → optional read v ≡ some o
    → (o ≡ none) ⊎ ((a : A) × (o ≡ some a) × (read v ≡ some a))
optional-some read v o h = elim (Bool-cases (is_nullish v)) [
  | inl e ↦ inl (ground arith)
  | inr e ↦ elim (Option-cases (read v)) [
    | inl k ↦ absurd (ground arith)
    | inr (a, k) ↦ inr (a, ground arith, k)
  ]
]

pub optional-reads :
    {A : Type 0} (read : Value → Option A) (v : Value) (a : A)
    → is_nullish v ≡ false
    → read v ≡ some a
    → optional read v ≡ some (some a)
optional-reads read v a h k = ground arith

-- The same, for a chain of many readings: each value that was read is a variable of the rest.
pub bind-then :
    {A B : Type 0} (P : Type 0) (o : Option A) {next : A → Option B} {b : B}
    → (o >>= next) ≡ some b
    → ((a : A) → o ≡ some a → next a ≡ some b → P)
    → P
bind-then P none h k = absurd (ground arith)
bind-then P (some a) h k = k a refl h
