-- ===== src/Env/Readers.antt =====
-- src/shared/env/reader.ts: reads keys one by one, records what they resolved to, and collects problems.
use modular_hx_fastapi.Common.{
  Bool, List, Num, Option, String, Text, Value, [], any, codes, false, if◌then◌else◌,
  is_safe_integer, less, ltb, nat, none, not, same, some, string, string_of, true, ◌&&◌, ◌++◌, ◌==◌,
  ◌is◌, ◌||◌, ◌∷◌,
}
use modular_hx_fastapi.Errors.{Failure, Fields, Result, err, failure, invalid, ok, put, undefined}
use modular_hx_fastapi.Env.Parsing.{integer, valid_key}

pub data Source : Type 0 where
  environment default_value : Source

pub record Var : Type 0 where
  pub key : Text
  pub value : Text
  pub source : Source
  pub secret : Bool

pub record Reader : Type 0 where
  pub seen : List Text
  pub problems : Fields
  pub resolved : List Var

unfoldable pub empty_reader : Reader
empty_reader = record { seen = []; problems = []; resolved = [] }

unfoldable pub problem : Text → String → Reader → Reader
problem key why r = record r {
  problems = put (if valid_key key then key else codes "<key>") (codes why) r.problems;
}

abbrev pub is_seen : Text → List Text → Bool
is_seen key seen = any (same key) seen

pub data Reading : Type 0 where
  valid : Option Text → Reading
  not_valid : Reading

abbrev pub text_value : Value → Option (Option Text)
text_value Value.undefined = some none
text_value (string t) = some (some t)
text_value _ = none

-- `#read`, by what the lookup holds for the key.
unfoldable pub read : (Text → Value) → Text → Reader → Reading × Reader
read lookup_key key r = elim (valid_key key) [
  | false ↦ (not_valid, problem key "invalid_key" r)
  | true ↦ elim (is_seen key r.seen) [
    | true ↦ (not_valid, problem key "duplicate_key" r)
    | false ↦
        let r' : Reader = record r { seen = key ∷ r.seen } in
        elim (text_value (lookup_key key)) [
          | none ↦ (not_valid, problem key "invalid_source" r')
          | some o ↦ (valid o, r')
        ]
  ]
]

abbrev pub redacted : Text
redacted = codes "[REDACTED]"

abbrev pub origin_of : Option Text → Source
origin_of none = default_value
origin_of (some t) = environment

-- `#record`.
unfoldable pub record_var : Text → Text → Source → Bool → Reader → Reader
record_var key value source secret r = record r {
  resolved =
      r.resolved
      ++ record {
        key = key;
        value = if secret then redacted else value;
        source = source;
        secret = secret;
      }
        ∷ [];
}

-- The shape of every method: read the key, judge the value that was found, and report a problem or record
-- the text that stands for the result.
unfoldable pub resolve {ℓ} :
    {A : Type ℓ} (lookup_key : Text → Value) (secret : Bool) (zero_value : A)
    (judge : Option Text → Result (A × Text) String)
    → Text
    → Reader
    → A × Reader
resolve lookup_key secret zero_value judge key r =
    let (found, r') = read lookup_key key r in
    elim found [
      | not_valid ↦ (zero_value, r')
      | valid o ↦ elim (judge o) [
        | err why ↦ (zero_value, problem key why r')
        | ok (a, shown) ↦ (a, record_var key shown (origin_of o) secret r')
      ]
    ]

abbrev pub or_text : Option Text → Text → Text
or_text none fallback = fallback
or_text (some t) fallback = t

abbrev pub judge_string : Text → Option Text → Result (Text × Text) String
judge_string fallback o = ok (or_text o fallback, or_text o fallback)

abbrev pub judge_required : Option Text → Result (Text × Text) String
judge_required none = err "required"
judge_required (some []) = err "required"
judge_required (some (c ∷ s)) = ok (c ∷ s, c ∷ s)

abbrev pub within : Num → Num → Num → Bool
within low high n = not (less n low) && not (less high n)

abbrev pub judge_number : Num → Num → Option Num → Result (Num × Text) String
judge_number low high none = err "invalid_integer"
judge_number low high (some n) =
    if within low high n then ok (n, string_of n) else err "out_of_range"

abbrev pub judge_int : Num → Num → Num → Option Text → Result (Num × Text) String
judge_int fallback low high none = judge_number low high (some fallback)
judge_int fallback low high (some t) = judge_number low high (integer t)

abbrev bool_text : Bool → Text
bool_text true = codes "true"
bool_text false = codes "false"

abbrev pub judge_boolean : Bool → Option Text → Result (Bool × Text) String
judge_boolean fallback none = ok (fallback, bool_text fallback)
judge_boolean fallback (some t) =
    if not (t is "true") && not (t is "false")
    then err "invalid_boolean"
    else ok (t is "true", bool_text (t is "true"))

abbrev pub is_member : Text → List Text → Bool
is_member t ts = any (same t) ts

abbrev pub judge_choice : Text → List Text → Option Text → Result (Text × Text) String
judge_choice fallback allowed o =
    if is_member (or_text o fallback) allowed
    then ok (or_text o fallback, or_text o fallback)
    else err "invalid_choice"

abbrev repeats : List Text → Bool
repeats [] = false
repeats (t ∷ ts) = is_member t ts || repeats ts

abbrev pub bad_range : Num → Num → Num → Bool
bad_range fallback low high =
    not (is_safe_integer fallback && is_safe_integer low && is_safe_integer high)
    || less high low
    || less fallback low
    || less high fallback

abbrev pub bad_choices : Text → List Text → Bool
bad_choices fallback allowed =
    repeats allowed || is_member [] allowed || not (is_member fallback allowed)

-- The methods of the class, for one lookup.
module _ (lookup_key : Text → Value) where
  -- `Reader.string`.
  unfoldable pub read_string : Text → Text → Reader → Text × Reader
  read_string key fallback r = resolve lookup_key false [] (judge_string fallback) key r

  unfoldable pub required : Text → Reader → Text × Reader
  required key r = resolve lookup_key false [] judge_required key r

  -- `Reader.secret`; the text stands for the `SecretString` that holds it.
  unfoldable pub read_secret : Text → Reader → Text × Reader
  read_secret key r = resolve lookup_key true [] judge_required key r

  -- `Reader.int`.
  unfoldable pub read_int : Text → Num → Num → Num → Reader → Num × Reader
  read_int key fallback low high r = elim (bad_range fallback low high) [
    | true ↦ (nat 0, problem key "invalid_definition" r)
    | false ↦ resolve lookup_key false (nat 0) (judge_int fallback low high) key r
  ]

  -- `Reader.boolean`.
  unfoldable pub read_boolean : Text → Bool → Reader → Bool × Reader
  read_boolean key fallback r = resolve lookup_key false false (judge_boolean fallback) key r

  -- `Reader.enumeration`.
  unfoldable pub enumeration : Text → Text → List Text → Reader → Text × Reader
  enumeration key fallback allowed r = elim (bad_choices fallback allowed) [
    | true ↦ ([], problem key "invalid_definition" r)
    | false ↦ resolve lookup_key false [] (judge_choice fallback allowed) key r
  ]

-- `Reader.check`.
unfoldable pub check : Reader → Result (Unit {0}) Failure
check r = elim r.problems [
  | [] ↦ ok tt
  | _ ∷ _ ↦ err (
      failure invalid "invalid configuration" (record {
        type = some "env.invalid";
        fields = some r.problems;
        details = [];
        cause = undefined;
      }))
]

-- `a < b` on strings: by code units.
abbrev pub precedes : Text → Text → Bool
precedes s [] = false
precedes [] (b ∷ t) = true
precedes (a ∷ s) (b ∷ t) = if a == b then precedes s t else ltb a b

-- A stable sort by key, as `Array.prototype.sort` with the comparison of the method.
unfoldable pub insert_var : Var → List Var → List Var
insert_var v [] = v ∷ []
insert_var v (w ∷ ws) =
    let rest = insert_var v ws in if precedes w.key v.key then w ∷ rest else v ∷ w ∷ ws

unfoldable pub sort_vars : List Var → List Var
sort_vars [] = []
sort_vars (v ∷ vs) = insert_var v (sort_vars vs)

-- `Reader.manifest`.
unfoldable pub manifest : Reader → Result (List Var) Failure
manifest r = elim (check r) [ err f ↦ err f | ok _ ↦ ok (sort_vars r.resolved) ]
