-- ===== src/Env/Invariant.antt =====
-- What a reader may disclose (src/shared/env/reader.ts).
use modular_hx_fastapi.Common.{
  All, All-append, Bool, Bool-cases, List, Num, Option, Option-cases, String, Text, Value, [],
  arith, false, inl, inr, nat, refl, same_refl, subst, true, ◌∷◌, ◌≡◌,
}
use modular_hx_fastapi.Errors.{Result, Result-cases}
use modular_hx_fastapi.Env.Parsing.{valid_key}
use modular_hx_fastapi.Env.Readers.{
  Reader, Source, Var, bad_choices, bad_range, empty_reader, enumeration, is_seen, judge_boolean,
  judge_choice, judge_int, judge_required, judge_string, origin_of, problem, read, read_boolean,
  read_int, read_secret, read_string, record_var, redacted, required, resolve, text_value,
}
use modular_hx_fastapi.Env.Soundness.{read-cases}

-- The readers that the methods can make, called in any order, with the keys that a method for values that are
-- no secrets was called with.
pub data Reached (lookup_key : Text → Value) : List Text → Reader → Type 0 where
  started : Reached lookup_key [] empty_reader
  after_string :
      {plains : List Text} {r : Reader} (key fallback : Text)
      → Reached lookup_key plains r
      → Reached lookup_key (key ∷ plains) (read_string lookup_key key fallback r).1
  after_required :
      {plains : List Text} {r : Reader} (key : Text)
      → Reached lookup_key plains r
      → Reached lookup_key (key ∷ plains) (required lookup_key key r).1
  after_secret :
      {plains : List Text} {r : Reader} (key : Text)
      → Reached lookup_key plains r
      → Reached lookup_key plains (read_secret lookup_key key r).1
  after_int :
      {plains : List Text} {r : Reader} (key : Text) (fallback low high : Num)
      → Reached lookup_key plains r
      → Reached lookup_key (key ∷ plains) (read_int lookup_key key fallback low high r).1
  after_boolean :
      {plains : List Text} {r : Reader} (key : Text) (fallback : Bool)
      → Reached lookup_key plains r
      → Reached lookup_key (key ∷ plains) (read_boolean lookup_key key fallback r).1
  after_enumeration :
      {plains : List Text} {r : Reader} (key fallback : Text) (allowed : List Text)
      → Reached lookup_key plains r
      → Reached lookup_key (key ∷ plains) (enumeration lookup_key key fallback allowed r).1

-- The keys of a list of variables are proper and were read.
abbrev pub AreListed : List Text → List Var → Type 0
AreListed seen vars = All (λ (v : Var). (valid_key v.key ≡ true) × (is_seen v.key seen ≡ true)) vars

-- A secret variable shows nothing but the mark.
abbrev pub AreConcealed : List Var → Type 0
AreConcealed vars = All (λ (v : Var). v.secret ≡ true → v.value ≡ redacted) vars

-- A variable whose key no method for other values was called with is marked as a secret, and shows nothing but
-- the mark.
abbrev pub AreSecret : List Text → List Var → Type 0
AreSecret plains vars =
    All (λ (v : Var). is_seen v.key plains ≡ false → (v.secret ≡ true) × (v.value ≡ redacted)) vars

pub record IsReader (plains : List Text) (r : Reader) : Type 0 where
  pub listed : AreListed r.seen r.resolved
  pub concealed : AreConcealed r.resolved
  pub secrets : AreSecret plains r.resolved

weaken :
    (key : Text) (seen : List Text) (vars : List Var)
    → AreListed seen vars
    → AreListed (key ∷ seen) vars
weaken key seen [] h = tt
weaken key seen (v ∷ vs) ((a, b), h) = ((a, ground arith), weaken key seen vs h)

exempt :
    (key : Text) (plains : List Text) (vars : List Var)
    → AreSecret plains vars
    → AreSecret (key ∷ plains) vars
exempt key plains [] h = tt
exempt key plains (v ∷ vs) (s, h) = ((λ n. s (ground arith)), exempt key plains vs h)

-- A reader keeps its invariant with one more key exempt.
exempt-IsReader :
    (key : Text) (plains : List Text) (r : Reader) → IsReader plains r → IsReader (key ∷ plains) r
exempt-IsReader key plains r i = record {
  listed = i.listed;
  concealed = i.concealed;
  secrets = exempt key plains r.resolved i.secrets;
}

own_exempt :
    (key : Text) (plains : List Text) (secret : Bool)
    → is_seen key (key ∷ plains) ≡ false
    → secret ≡ true
own_exempt key plains secret h = absurd (ground (arith, same_refl key))

module _ (lookup_key : Text → Value) (plains : List Text) where
  problem-IsReader :
      (key : Text) (why : String) (r : Reader)
      → IsReader plains r
      → IsReader plains (problem key why r)
  unfolding problem
  problem-IsReader key why r i = record {
    listed = i.listed;
    concealed = i.concealed;
    secrets = i.secrets;
  }

  seen-IsReader :
      (key : Text) (r : Reader)
      → IsReader plains r
      → IsReader plains (record r { seen = key ∷ r.seen })
  seen-IsReader key r i = record {
    listed = weaken key r.seen r.resolved i.listed;
    concealed = i.concealed;
    secrets = i.secrets;
  }

  read-IsReader :
      (key : Text) (r : Reader) → IsReader plains r → IsReader plains (read lookup_key key r).1
  unfolding read
  read-IsReader key r i = elim (Bool-cases (valid_key key)) [
    | inr v ↦ subst (IsReader plains) (ground arith) (problem-IsReader key "invalid_key" r i)
    | inl v ↦ elim (Bool-cases (is_seen key r.seen)) [
      | inl s ↦ subst (IsReader plains) (ground arith) (problem-IsReader key "duplicate_key" r i)
      | inr n ↦ elim (Option-cases (text_value (lookup_key key))) [
        | inl e ↦ subst (IsReader plains) (ground arith) (
            problem-IsReader key "invalid_source" (record r { seen = key ∷ r.seen })
              (seen-IsReader key r i))
        | inr (o, e) ↦ subst (IsReader plains) (ground arith) (seen-IsReader key r i)
      ]
    ]
  ]

  record_var-IsReader :
      (key shown : Text) (s : Source) (secret : Bool) (r : Reader)
      → valid_key key ≡ true
      → is_seen key r.seen ≡ true
      → (is_seen key plains ≡ false → secret ≡ true)
      → IsReader plains r
      → IsReader plains (record_var key shown s secret r)
  unfolding record_var
  record_var-IsReader key shown s secret r v k n i = record {
    listed = All-append _ r.resolved _ i.listed ((v, k), tt);
    concealed = All-append _ r.resolved _ i.concealed ((λ e. ground arith), tt);
    secrets = All-append _ r.resolved _ i.secrets ((λ e. ground (arith, n e)), tt);
  }

  resolve-IsReader :
      {A : Type 0} (secret : Bool) (zero_value : A) (judge : Option Text → Result (A × Text) String)
      (key : Text) (r : Reader)
      → (is_seen key plains ≡ false → secret ≡ true)
      → IsReader plains r
      → IsReader plains (resolve lookup_key secret zero_value judge key r).1
  unfolding resolve
  resolve-IsReader secret zero_value judge key r n i =
      let k = read-IsReader key r i in
      elim (read-cases lookup_key key r) [
        | inr (e, p) ↦ subst (IsReader plains) (ground arith) k
        | inl (o, e, d) ↦ elim (Result-cases (judge o)) [
          | inr (why, j) ↦
              subst (IsReader plains) (ground arith)
                (problem-IsReader key why (read lookup_key key r).1 k)
          | inl ((v, shown), j) ↦ subst (IsReader plains) (ground arith) (
              record_var-IsReader key shown (origin_of o) secret (read lookup_key key r).1 d.valid
                (ground (arith, d.seen, same_refl key)) n k)
        ]
      ]

-- A method for values that are no secrets exempts its key.
module _ (lookup_key : Text → Value) (plains : List Text) where
  plain-IsReader :
      {A : Type 0} (zero_value : A) (judge : Option Text → Result (A × Text) String) (key : Text)
      (r : Reader)
      → IsReader plains r
      → IsReader (key ∷ plains) (resolve lookup_key false zero_value judge key r).1
  plain-IsReader zero_value judge key r i =
      resolve-IsReader lookup_key (key ∷ plains) false zero_value judge key r
        (own_exempt key plains false) (exempt-IsReader key plains r i)

  read_int-IsReader :
      (key : Text) (fallback low high : Num) (r : Reader)
      → IsReader plains r
      → IsReader (key ∷ plains) (read_int lookup_key key fallback low high r).1
  unfolding read_int
  read_int-IsReader key fallback low high r i = elim (Bool-cases (bad_range fallback low high)) [
    | inl b ↦ subst (IsReader (key ∷ plains)) (ground arith) (
        problem-IsReader lookup_key (key ∷ plains) key "invalid_definition" r
          (exempt-IsReader key plains r i))
    | inr b ↦
        subst (IsReader (key ∷ plains)) (ground arith)
          (plain-IsReader (nat 0) (judge_int fallback low high) key r i)
  ]

  enumeration-IsReader :
      (key fallback : Text) (allowed : List Text) (r : Reader)
      → IsReader plains r
      → IsReader (key ∷ plains) (enumeration lookup_key key fallback allowed r).1
  unfolding enumeration
  enumeration-IsReader key fallback allowed r i = elim (Bool-cases (bad_choices fallback allowed)) [
    | inl b ↦ subst (IsReader (key ∷ plains)) (ground arith) (
        problem-IsReader lookup_key (key ∷ plains) key "invalid_definition" r
          (exempt-IsReader key plains r i))
    | inr b ↦
        subst (IsReader (key ∷ plains)) (ground arith)
          (plain-IsReader [] (judge_choice fallback allowed) key r i)
  ]

-- Whatever methods were called in whatever order, each recorded variable has a proper key that was read, the
-- value recorded for a variable marked as a secret is the redaction mark, and so are mark and value of every
-- variable whose key only the method for secrets was called with.
pub Reached-IsReader :
    (lookup_key : Text → Value) (plains : List Text) (r : Reader)
    → Reached lookup_key plains r
    → IsReader plains r
unfolding empty_reader read_string required read_secret read_boolean
Reached-IsReader l ps r started = record { listed = tt; concealed = tt; secrets = tt }
Reached-IsReader l ps r (after_string key fallback h) =
    plain-IsReader l _ [] (judge_string fallback) key _ (Reached-IsReader l _ _ h)
Reached-IsReader l ps r (after_required key h) =
    plain-IsReader l _ [] judge_required key _ (Reached-IsReader l _ _ h)
Reached-IsReader l ps r (after_secret key h) =
    resolve-IsReader l _ true [] judge_required key _ (λ n. refl) (Reached-IsReader l _ _ h)
Reached-IsReader l ps r (after_int key fallback low high h) =
    read_int-IsReader l _ key fallback low high _ (Reached-IsReader l _ _ h)
Reached-IsReader l ps r (after_boolean key fallback h) =
    plain-IsReader l _ false (judge_boolean fallback) key _ (Reached-IsReader l _ _ h)
Reached-IsReader l ps r (after_enumeration key fallback allowed h) =
    enumeration-IsReader l _ key fallback allowed _ (Reached-IsReader l _ _ h)
