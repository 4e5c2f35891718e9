-- ===== src/Env/Soundness.antt =====
-- A reader without problems has read what the environment holds (src/shared/env/reader.ts).
use modular_hx_fastapi.Common.{
  Bool, Bool-cases, List, Num, Option, Option-cases, String, Text, Value, [], ap, arith, false,
  if◌then◌else◌, inl, inr, is_integer, nat, none, same, some, string_of, subst, sym, true, ◌++◌,
  ◌∙◌, ◌∷◌, ◌≡◌, ◌≢◌, ◌⊎◌,
}
use modular_hx_fastapi.Errors.{Fields, Result, Result-cases, ok, put}
use modular_hx_fastapi.Env.Parsing.{integer, valid_key}
use modular_hx_fastapi.Env.Integers.{
  AtMost, Denotes, bad_range-is_integer, integer-Denotes, integer-is_integer, within-AtMost,
}
use modular_hx_fastapi.Env.Readers.{
  Reader, bad_choices, bad_range, enumeration, is_member, is_seen, judge_choice, judge_int,
  judge_number, not_valid, or_text, origin_of, problem, read, read_int, record_var, redacted,
  resolve, text_value, valid, within,
}

put-some : (k v : Text) (m : Fields) → put k v m ≢ []
unfolding put
put-some k v [] = λ h. absurd (ground arith)
put-some k v ((j, w) ∷ m) = λ h. elim (Bool-cases (same j k)) [
  | inl e ↦ absurd (ground arith)
  | inr e ↦ absurd (ground arith)
]

problem-some : (key : Text) (why : String) (r : Reader) → (problem key why r).problems ≢ []
unfolding problem
problem-some key why r = put-some _ _ r.problems

module _ (lookup_key : Text → Value) where
  -- A successful reading: the key is proper and new, it is marked as read, and its value is the lookup's.
  pub record IsRead (key : Text) (o : Option Text) (r r' : Reader) : Type 0 where
    pub valid : valid_key key ≡ true
    pub new : is_seen key r.seen ≡ false
    pub found : text_value (lookup_key key) ≡ some o
    pub seen : r'.seen ≡ key ∷ r.seen
    pub resolved : r'.resolved ≡ r.resolved
    pub problems : r'.problems ≡ r.problems

  -- A reading either succeeds or adds a problem.
  pub read-cases :
      (key : Text) (r : Reader)
      → ((o : Option Text) × ((read lookup_key key r).0 ≡ valid o)
          × IsRead key o r (read lookup_key key r).1)
        ⊎ (((read lookup_key key r).0 ≡ not_valid) × ((read lookup_key key r).1.problems ≢ []))
  unfolding read
  read-cases key r = elim (Bool-cases (valid_key key)) [
    | inr v ↦ inr (ground arith, λ h. problem-some key "invalid_key" r (ground arith))
    | inl v ↦ elim (Bool-cases (is_seen key r.seen)) [
      | inl s ↦ inr (ground arith, λ h. problem-some key "duplicate_key" r (ground arith))
      | inr n ↦ elim (Option-cases (text_value (lookup_key key))) [
        | inl e ↦
            let r' : Reader = record r { seen = key ∷ r.seen } in
            inr (ground arith, λ h. problem-some key "invalid_source" r' (ground arith))
        | inr (o, e) ↦ inl (
          o,
          ground arith,
          record {
            valid = v;
            new = n;
            found = e;
            seen = ground arith;
            resolved = ground arith;
            problems = ground arith;
          },
        )
      ]
    ]
  ]

  module _ {A : Type 0} (secret : Bool) (zero_value : A)
      (judge : Option Text → Result (A × Text) String) where
    -- What a method has done if there is no problem after it.
    pub record IsResolved (key : Text) (r : Reader) (a : A) (r' : Reader) : Type 0 where
      pub found : Option Text
      pub shown : Text
      pub valid : valid_key key ≡ true
      pub new : is_seen key r.seen ≡ false
      pub from_lookup : text_value (lookup_key key) ≡ some found
      pub judged : judge found ≡ ok (a, shown)
      pub no_problems : r.problems ≡ []
      pub recorded :
          r'.resolved
          ≡ r.resolved
            ++ record {
              key = key;
              value = if secret then redacted else shown;
              source = origin_of found;
              secret = secret;
            }
              ∷ []

    pub resolve-IsResolved :
        (key : Text) (r : Reader) (a : A) (r' : Reader)
        → resolve lookup_key secret zero_value judge key r ≡ (a, r')
        → r'.problems ≡ []
        → IsResolved key r a r'
    unfolding resolve record_var
    resolve-IsResolved key r a r' h n = elim (read-cases key r) [
      | inr (e, p) ↦ absurd (p (ground arith))
      | inl (o, e, i) ↦ elim (Result-cases (judge o)) [
        | inr (why, j) ↦ absurd (problem-some key why (read lookup_key key r).1 (ground arith))
        | inl ((v, shown), j) ↦ record {
          found = o;
          shown = shown;
          valid = i.valid;
          new = i.new;
          from_lookup = i.found;
          judged = ground arith;
          no_problems = ground (arith, i.problems);
          recorded = ground (arith, i.resolved);
        }
      ]
    ]

  -- The integer that a key stands for: what its text denotes, or the fallback.
  abbrev pub StandsFor : Num → Option Text → Num → Type 0
  StandsFor fallback none n = n ≡ fallback
  StandsFor fallback (some t) n = Denotes t n

  pub record IsInt (key : Text) (fallback low high : Num) (r : Reader) (n : Num) (r' : Reader)
      : Type 0 where
    pub found : Option Text
    pub from_lookup : text_value (lookup_key key) ≡ some found
    pub value : StandsFor fallback found n
    pub in_bounds : AtMost low n × AtMost n high
    pub new : is_seen key r.seen ≡ false
    pub no_problems : r.problems ≡ []
    pub recorded :
        r'.resolved
        ≡ r.resolved
          ++ record { key = key; value = string_of n; source = origin_of found; secret = false }
            ∷ []

  judge_number_lem :
      (low high : Num) (o : Option Num) (n : Num) (shown : Text)
      → judge_number low high o ≡ ok (n, shown)
      → (o ≡ some n) × (within low high n ≡ true) × (shown ≡ string_of n)
  judge_number_lem low high none n shown h = absurd (ground arith)
  judge_number_lem low high (some m) n shown h = elim (Bool-cases (within low high m)) [
    | inl w ↦
        let e : m ≡ n = ground arith in
        let f : string_of m ≡ shown = ground arith in
        (ap some e, subst (λ (k : Num). within low high k ≡ true) e w, sym f ∙ ap string_of e)
    | inr w ↦ absurd (ground arith)
  ]

  judge_int_lem :
      (fallback low high : Num) (o : Option Text) (n : Num) (shown : Text)
      → bad_range fallback low high ≡ false
      → judge_int fallback low high o ≡ ok (n, shown)
      → StandsFor fallback o n × (AtMost low n × AtMost n high) × (shown ≡ string_of n)
  judge_int_lem fallback low high none n shown b h =
      let (f, l, g) = bad_range-is_integer fallback low high b in
      let (e, w, s) = judge_number_lem low high (some fallback) n shown h in
      let same_num : n ≡ fallback = ground arith in
      (same_num, within-AtMost low high n l g (ap is_integer same_num ∙ f) w, s)
  judge_int_lem fallback low high (some t) n shown b h =
      let (f, l, g) = bad_range-is_integer fallback low high b in
      let (e, w, s) = judge_number_lem low high (integer t) n shown h in
      (integer-Denotes t n e, within-AtMost low high n l g (integer-is_integer t n e) w, s)

  -- An integer that is read without any problem so far is at least the lower bound and at most the upper one;
  -- it is the integer that the digits of the environment's text write, negated if they follow a minus sign, or
  -- the fallback if the key is missing there; and it is recorded as its decimal digits.
  pub read_int-IsInt :
      (key : Text) (fallback low high : Num) (r r' : Reader) (n : Num)
      → read_int lookup_key key fallback low high r ≡ (n, r')
      → r'.problems ≡ []
      → IsInt key fallback low high r n r'
  unfolding read_int
  read_int-IsInt key fallback low high r r' n h p =
      elim (Bool-cases (bad_range fallback low high)) [
        | inl b ↦ absurd (problem-some key "invalid_definition" r (ground arith))
        | inr b ↦
            let i =
              resolve-IsResolved false (nat 0) (judge_int fallback low high) key r n r'
                (ground arith) p in
            let (value, bounds, shown) =
              judge_int_lem fallback low high i.found n i.shown b i.judged in
            record {
              found = i.found;
              from_lookup = i.from_lookup;
              value = value;
              in_bounds = bounds;
              new = i.new;
              no_problems = i.no_problems;
              recorded =
                  i.recorded
                  ∙ ap
                      (λ (t : Text).
                        r.resolved
                        ++ record {
                          key = key;
                          value = t;
                          source = origin_of i.found;
                          secret = false;
                        }
                          ∷ [])
                      shown;
            }
      ]

  judge_choice_lem :
      (fallback : Text) (allowed : List Text) (o : Option Text) (t shown : Text)
      → judge_choice fallback allowed o ≡ ok (t, shown)
      → (or_text o fallback ≡ t) × (is_member t allowed ≡ true)
  judge_choice_lem fallback allowed o t shown h =
      elim (Bool-cases (is_member (or_text o fallback) allowed)) [
        | inl m ↦
            let e : or_text o fallback ≡ t = ground arith in
            (e, subst (λ (k : Text). is_member k allowed ≡ true) e m)
        | inr m ↦ absurd (ground arith)
      ]

  -- A choice that is read without any problem so far is one of those allowed, and is the text of the
  -- environment, or the fallback if the key is missing there.
  pub enumeration-IsChoice :
      (key fallback : Text) (allowed : List Text) (r r' : Reader) (t : Text)
      → enumeration lookup_key key fallback allowed r ≡ (t, r')
      → r'.problems ≡ []
      → (is_member t allowed ≡ true)
        × ((o : Option Text) × (text_value (lookup_key key) ≡ some o) × (or_text o fallback ≡ t))
  unfolding enumeration
  enumeration-IsChoice key fallback allowed r r' t h p =
      elim (Bool-cases (bad_choices fallback allowed)) [
        | inl b ↦ absurd (problem-some key "invalid_definition" r (ground arith))
        | inr b ↦
            let i =
              resolve-IsResolved false [] (judge_choice fallback allowed) key r t r' (ground arith)
                p in
            let (e, m) = judge_choice_lem fallback allowed i.found t i.shown i.judged in
            (m, (i.found, i.from_lookup, e))
      ]
