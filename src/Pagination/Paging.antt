-- ===== src/Pagination/Paging.antt =====
-- Pages are bounded and cursors give back their position (src/shared/pagination/index.ts).
use modular_hx_fastapi.Common.{
  All, Bool-cases, List, Num, Option-cases, Text, Value, [], all, ap, arith, array, cons, false,
  inl, inr, length, length-take-le, ltb, nat, neg, nil, non_integer, none, number, refl, same,
  same_iff, same_refl, some, string, subst, suc, take, take-all, true, ℕ, ◌∙◌, ◌∷◌, ◌≡◌, ◌≢◌, ◌≤◌,
  ◌⊎◌,
}
use modular_hx_fastapi.Errors.{Result-cases, err, ok}
use modular_hx_fastapi.Pagination.Cursors.{
  Codec, Page, bad_limit, bad_wire, decode, encode, invalid_pagination, is_wire_unit, last_of,
  or_invalid, position_of, valid_part, whole, window,
}

-- A letter, a digit, `-` or `_` of ASCII.
abbrev pub IsBase64Url : ℕ → Type 0
IsBase64Url c =
    ((65 ≤ c) × (c ≤ 90)) ⊎ ((97 ≤ c) × (c ≤ 122)) ⊎ ((48 ≤ c) × (c ≤ 57)) ⊎ (c ≡ 45) ⊎ (c ≡ 95)

-- What Node documents of the two encodings: base64url text uses its alphabet, is not empty for an array and
-- is already normal, and a text of JSON parses to what it was made from.
pub record IsCodec (c : Codec) (s p : Text) : Type 0 where
  pub alphabet : All IsBase64Url (c.to_wire s p)
  pub not_empty : 1 ≤ length (c.to_wire s p)
  pub normal : c.normal_wire (c.to_wire s p) ≡ c.to_wire s p
  pub parsed :
      c.from_wire (c.to_wire s p)
      ≡ some (array (cons (number (nat 1)) (cons (string s) (cons (string p) nil))))

one_wire_unit : (c : ℕ) → IsBase64Url c → is_wire_unit c ≡ true
one_wire_unit c h = ground arith

wire_units : (w : Text) → All IsBase64Url w → all is_wire_unit w ≡ true
wire_units [] h = refl
wire_units (c ∷ w) (u, h) = ground (arith, one_wire_unit c u, wire_units w h)

-- The tests on the wire text refuse no text of the alphabet from 1 to 1024 units.
bad_wire_lem : (w : Text) → All IsBase64Url w → 1 ≤ length w → length w ≤ 1024 → bad_wire w ≡ false
bad_wire_lem w a low high = ground (arith, wire_units w a)

module _ (c : Codec) where
  encode-valid :
      (scope position wire : Text)
      → encode c scope position ≡ ok wire
      → (valid_part c scope 128 ≡ true)
        × (valid_part c position 256 ≡ true)
        × (wire ≡ c.to_wire scope position)
  unfolding encode
  encode-valid scope position wire h = (ground arith, ground arith, ground arith)

  decode-value :
      (wire other : Text) (v : Value)
      → bad_wire wire ≡ false
      → same (c.normal_wire wire) wire ≡ true
      → c.from_wire wire ≡ some v
      → valid_part c other 128 ≡ true
      → decode c wire other ≡ or_invalid (position_of c other v)
  unfolding decode
  decode-value wire other v b n p s = rw (b, n, p, s)

  decode-scope :
      (wire other : Text)
      → valid_part c other 128 ≡ false
      → decode c wire other ≡ err invalid_pagination
  unfolding decode
  decode-scope wire other s = elim (Bool-cases (bad_wire wire)) [
    | inl b ↦ ground arith
    | inr b ↦ ground arith
  ]

  differ-same : (s t : Text) → t ≢ s → same s t ≡ false
  differ-same s t h = ground (arith, same_iff s t)

  -- If the encodings of the platform give base64url text that decodes and parses to what it was made from, a
  -- cursor of at most 1024 characters gives back its position for the scope that it was made for, and is refused
  -- for every other scope.
  pub decode-encode :
      (scope position wire other : Text)
      → IsCodec c scope position
      → encode c scope position ≡ ok wire
      → length wire ≤ 1024
      → (decode c wire scope ≡ ok position)
        × (other ≢ scope → decode c wire other ≡ err invalid_pagination)
  decode-encode scope position wire other k h n =
      let (s, p, e) = encode-valid scope position wire h in
      let short : length (c.to_wire scope position) ≤ 1024 =
        subst (λ (w : Text). length w ≤ 1024) e n in
      let proper : bad_wire wire ≡ false =
        ap bad_wire e ∙ bad_wire_lem (c.to_wire scope position) k.alphabet k.not_empty short in
      let normal : same (c.normal_wire wire) wire ≡ true =
        ap (λ (w : Text). same (c.normal_wire w) w) e
        ∙ ap (λ (w : Text). same w (c.to_wire scope position)) k.normal
        ∙ same_refl (c.to_wire scope position) in
      let value = ap c.from_wire e ∙ k.parsed in
      (
        decode-value wire scope _ proper normal value s ∙ ground (arith, same_refl scope),
        λ d. elim (Bool-cases (valid_part c other 128)) [
          | inl v ↦
              decode-value wire other _ proper normal value v
              ∙ ground (arith, differ-same scope other d)
          | inr v ↦ decode-scope wire other v
        ],
      )

  pub record IsPage {A : Type 0} (rows : List A) (limit : Num) (scope : Text) (position : A → Text)
      (p : Page A) : Type 0 where
    pub bounds : (1 ≤ whole limit) × (whole limit ≤ 100) × (limit ≡ nat (whole limit))
    pub items : p.items ≡ take (whole limit) rows
    pub few : length p.items ≤ whole limit
    pub more : p.has_more ≡ ltb (whole limit) (length rows)
    pub rest : length rows ≤ suc (whole limit)
    pub no_cursor : p.has_more ≡ false → p.next_cursor ≡ none
    pub cursor :
        p.has_more ≡ true
        → (last : A) × (next : Text) × (last_of p.items ≡ some last)
          × (p.next_cursor ≡ some next)
          × (encode c scope (position last) ≡ ok next)

  bounds_of :
      (limit : Num) (rows : ℕ)
      → bad_limit limit rows ≡ false
      → (1 ≤ whole limit)
        × (whole limit ≤ 100)
        × (limit ≡ nat (whole limit))
        × (rows ≤ suc (whole limit))
  bounds_of (nat n) rows h = (ground arith, ground arith, refl, ground arith)
  bounds_of (neg n) rows h = absurd (ground arith)
  bounds_of non_integer rows h = absurd (ground arith)

  -- A page holds the first rows up to the limit, which is from 1 to 100, has more exactly if there is a row
  -- after them, and has a cursor exactly then, which is the encoding of the position of its last item.
  pub window-IsPage :
      {A : Type 0} (rows : List A) (limit : Num) (scope : Text) (position : A → Text) (p : Page A)
      → window c rows limit scope position ≡ ok p
      → IsPage rows limit scope position p
  unfolding window
  window-IsPage rows limit scope position p h = elim (Bool-cases (bad_limit limit (length rows))) [
    | inl b ↦ absurd (ground arith)
    | inr b ↦
        let (low, high, w, rest) = bounds_of limit (length rows) b in
        let short = length-take-le (whole limit) rows in
        elim (Bool-cases (ltb (whole limit) (length rows))) [
          | inr m ↦ record {
            bounds = (low, high, w);
            items = ground arith;
            few = ground arith;
            more = ground arith;
            rest = rest;
            no_cursor = λ k. ground arith;
            cursor = λ k. absurd (ground arith);
          }
          | inl m ↦ elim (Option-cases (last_of (take (whole limit) rows))) [
            | inl l ↦ absurd (ground arith)
            | inr (last, l) ↦ elim (Result-cases (encode c scope (position last))) [
              | inr (f, e) ↦ absurd (ground arith)
              | inl (next, e) ↦ record {
                bounds = (low, high, w);
                items = ground arith;
                few = ground arith;
                more = ground arith;
                rest = rest;
                no_cursor = λ k. absurd (ground arith);
                cursor = λ k. (last, next, ground arith, ground arith, e);
              }
            ]
          ]
        ]
  ]

  window-all :
      {A : Type 0} (rows : List A) (n : ℕ) (scope : Text) (position : A → Text)
      → bad_limit (nat n) (length rows) ≡ false
      → ltb n (length rows) ≡ false
      → window c rows (nat n) scope position
        ≡ ok (record { items = take n rows; has_more = false; next_cursor = none })
  unfolding window
  window-all rows n scope position b m = ground arith

  -- Rows that fit into a limit from 1 to 100 always make a page, which holds all of them and has no cursor.
  pub window-short :
      {A : Type 0} (rows : List A) (n : ℕ) (scope : Text) (position : A → Text)
      → 1 ≤ n
      → n ≤ 100
      → length rows ≤ n
      → window c rows (nat n) scope position
        ≡ ok (record { items = rows; has_more = false; next_cursor = none })
  window-short rows n scope position low high fit =
      window-all rows n scope position (ground arith) (ground arith)
      ∙ ap (λ (t : List _). ok (record { items = t; has_more = false; next_cursor = none }))
          (take-all n rows fit)
