-- ===== src/Identifiers/Format.antt =====
-- The format of generated identifiers (src/shared/id/value.ts): they are canonical, of version 7,
-- and hold their timestamp.
use Prim.Native.Nat.{bit_and, bit_or}
use modular_hx_fastapi.Common.{
  ==_iff, All, Bool, List, Text, [], all, all-append, all-drop, all-seq, all-take, all_weaken,
  and_parts, ap, arith, drop, length, length-append, lower_unit, refl, replicate, some, string, suc,
  sym, take, to_lower_case, true, zero, ℕ, ◌%◌, ◌&&◌, ◌*◌, ◌++◌, ◌+◌, ◌/◌, ◌<◌, ◌==◌, ◌^◌, ◌||◌,
  ◌∙◌, ◌∷◌, ◌≡◌, ◌≤◌,
}
use modular_hx_fastapi.Errors.{ok}
use modular_hx_fastapi.Identifiers.Values.{
  canonical, canonical_tail, digit, encode_v7, is_dash, is_hex, is_hex_any, is_variant, matches,
  pad_start, parse, parse_from, parse_int_16, tail_bytes, tail_hex, to_string_16, unix_millis,
  version,
}
use modular_hx_fastapi.Identifiers.Hex.{
  all_hex_any, digit-is_hex, fixed, fixed-all_hex, length-fixed, pad_start-to_hex, parse_from-fixed,
  to_hex-fixed,
}

abbrev pub Bytes : List ℕ → Type 0
Bytes = All (λ b. b < 256)

unfoldable pub all_below : ℕ → (ℕ → Bool) → Bool
all_below zero p = true
all_below (suc n) p = p n && all_below n p

pub all_below_sound : (n : ℕ) (p : ℕ → Bool) (x : ℕ) → all_below n p ≡ true → x < n → p x ≡ true
unfolding all_below
all_below_sound zero p x h k = absurd (omega arith)
all_below_sound (suc n) p x h k = ground (arith, all_below_sound n p x)

sequence_table : all_below 4096 (λ c. bit_or 0x7000 c == 28672 + c) ≡ true
unfolding all_below
sequence_table = refl

-- Setting the version bits adds them, since a counter has twelve bits.
pub bit_or_version : (c : ℕ) → c < 4096 → bit_or 0x7000 c ≡ 28672 + c
bit_or_version c h =
    (==_iff _ _).0 (all_below_sound 4096 (λ c. bit_or 0x7000 c == 28672 + c) c sequence_table h)

variant_table : all_below 256 (λ b. bit_or (bit_and b 0x3f) 0x80 == 128 + b % 64) ≡ true
unfolding all_below
variant_table = refl

pub bit_or_variant : (b : ℕ) → b < 256 → bit_or (bit_and b 0x3f) 0x80 ≡ 128 + b % 64
bit_or_variant b h =
    (==_iff _ _).0
      (all_below_sound 256 (λ b. bit_or (bit_and b 0x3f) 0x80 == 128 + b % 64) b variant_table h)

pub tail_bytes-cons :
    (b : ℕ) (bs : List ℕ) → b < 256 → tail_bytes (b ∷ bs) ≡ fixed 2 b ++ tail_bytes bs
unfolding tail_bytes to_string_16
tail_bytes-cons b bs h = rw (pad_start-to_hex 14 1 b (omega arith) h)

pub length-tail_bytes : (bs : List ℕ) → Bytes bs → length (tail_bytes bs) ≡ 2 * length bs
length-tail_bytes [] h = unfold tail_bytes in omega arith
length-tail_bytes (b ∷ bs) (h, hs) = rw (tail_bytes-cons b bs h) (
    omega (
      arith,
      length-append {0} (fixed 2 b) (tail_bytes bs),
      length-fixed 2 b,
      length-tail_bytes bs hs,
    ))

tail_bytes-all_hex : (bs : List ℕ) → Bytes bs → all is_hex (tail_bytes bs) ≡ true
tail_bytes-all_hex [] h = unfold tail_bytes in refl
tail_bytes-all_hex (b ∷ bs) (h, hs) =
    rw (tail_bytes-cons b bs h, all-append is_hex (fixed 2 b) (tail_bytes bs), fixed-all_hex 2 b)
      (tail_bytes-all_hex bs hs)

matches-append :
    (ps qs : List (ℕ → Bool)) (s t : Text)
    → length ps ≡ length s
    → matches (ps ++ qs) (s ++ t) ≡ (matches ps s && matches qs t)
unfolding matches
matches-append [] qs [] t h = refl
matches-append [] qs (c ∷ s) t h = absurd (omega arith)
matches-append (p ∷ ps) qs [] t h = absurd (omega arith)
matches-append (p ∷ ps) qs (c ∷ s) t h = ground (arith, matches-append ps qs s t (omega arith))

matches-hex :
    (w : ℕ) (s : Text)
    → length s ≡ w
    → all is_hex s ≡ true
    → matches (replicate w is_hex_any) s ≡ true
unfolding matches
matches-hex zero [] h k = refl
matches-hex zero (c ∷ s) h k = absurd (omega arith)
matches-hex (suc w) [] h k = absurd (omega arith)
matches-hex (suc w) (c ∷ s) h k = ground (arith, matches-hex w s (omega arith))

-- Digits and dashes are their own lower case.
lower_all : (s : Text) → all (λ c. is_hex c || c == b'-') s ≡ true → to_lower_case s ≡ s
lower_all [] h = refl
lower_all (c ∷ s) h =
    let (here, later) = and_parts _ _ h in rw (lower_all s later, lower_plain c here)
  where
    lower_plain : (c : ℕ) → (is_hex c || c == b'-') ≡ true → lower_unit c ≡ c
    lower_plain c h = ground arith

pub matches-length : (ps : List (ℕ → Bool)) (s : Text) → matches ps s ≡ true → length s ≡ length ps
unfolding matches
matches-length [] [] h = refl
matches-length [] (c ∷ s) h = cc
matches-length (p ∷ ps) [] h = cc
matches-length (p ∷ ps) (c ∷ s) h = ap suc (matches-length ps s (and_parts _ _ h).1)

matches-seq :
    (ps qs : List (ℕ → Bool)) (s t : Text)
    → length ps ≡ length s
    → matches ps s ≡ true
    → matches qs t ≡ true
    → matches (ps ++ qs) (s ++ t) ≡ true
matches-seq ps qs s t h k l = rw (matches-append ps qs s t h, k, l)

is_variant-digit : (n : ℕ) → 8 ≤ n → n < 12 → is_variant (digit n) ≡ true
is_variant-digit n h k = ground arith

parse_int_16_of_hex :
    (c : ℕ) (s : Text)
    → all is_hex_any (c ∷ s) ≡ true
    → parse_int_16 (c ∷ s) ≡ some (parse_from 0 (c ∷ s))
unfolding parse_int_16 parse_from
parse_int_16_of_hex c s h = ground arith

-- A lower-case digit or a dash.
abbrev is_plain : ℕ → Bool
is_plain c = is_hex c || c == b'-'

plain_of_hex : (s : Text) → all is_hex s ≡ true → all is_plain s ≡ true
plain_of_hex s h = all_weaken is_hex is_plain s (λ c k. ground arith) h

plain_seq :
    (s t : Text) → all is_hex s ≡ true → all is_plain t ≡ true → all is_plain (s ++ t) ≡ true
plain_seq s t h k = all-seq is_plain s t (plain_of_hex s h) k

-- A text that matches and has no capital parses to itself.
pub parse_of_matches :
    (s : Text) → matches canonical s ≡ true → to_lower_case s ≡ s → parse (string s) ≡ ok s
unfolding parse
parse_of_matches s h low =
    let size : length s ≡ 36 = matches-length canonical s h in rw (size, h, low)

-- The five groups, with the dashes between them.
abbrev pub after_stamp : Text → Text → Text → Text
after_stamp sequence variant tail = b'-' ∷ sequence ++ (b'-' ∷ variant ++ (b'-' ∷ tail))

abbrev pub layout : Text → Text → Text → Text → Text
layout stamp sequence variant tail =
    take 8 stamp ++ (b'-' ∷ drop 8 stamp ++ after_stamp sequence variant tail)

abbrev last_group : List (ℕ → Bool)
last_group = is_dash ∷ replicate 12 is_hex_any

abbrev variant_group : List (ℕ → Bool)
variant_group = is_variant ∷ replicate 3 is_hex_any

abbrev four_group : List (ℕ → Bool)
four_group = replicate 4 is_hex_any

groups-matches :
    (a s q v t : Text)
    → matches (replicate 8 is_hex_any) a ≡ true
    → matches four_group s ≡ true
    → matches four_group q ≡ true
    → matches variant_group v ≡ true
    → matches (replicate 12 is_hex_any) t ≡ true
    → matches canonical (a ++ (b'-' ∷ s ++ (b'-' ∷ q ++ (b'-' ∷ v ++ (b'-' ∷ t))))) ≡ true
unfolding matches
groups-matches a s q v t ha hs hq hv ht =
    matches-group (replicate 8 is_hex_any) canonical_tail a _ ha (
      matches-group four_group (is_dash ∷ four_group ++ (is_dash ∷ variant_group ++ last_group)) s _
        hs
        (matches-group four_group (is_dash ∷ variant_group ++ last_group) q _ hq
          (matches-group variant_group last_group v (b'-' ∷ t) hv ht)))
  where
    matches-group :
        (ps qs : List (ℕ → Bool)) (s t : Text)
        → matches ps s ≡ true
        → matches qs t ≡ true
        → matches (ps ++ qs) (s ++ t) ≡ true
    matches-group ps qs s t h k = matches-seq ps qs s t (sym (matches-length ps s h)) h k

abbrev pub variant_digits : ℕ → ℕ → Text
variant_digits b b' = fixed 2 (128 + b % 64) ++ fixed 2 b'

unfoldable pub digits : ℕ → ℕ → ℕ → ℕ → List ℕ → Text
digits ms c b b' bs =
    layout (fixed 12 ms) (fixed 4 (28672 + c)) (variant_digits b b') (tail_bytes bs)

module _ (ms c b b' : ℕ) (bs : List ℕ) (hm : ms < 2 ^ 48) (hc : c < 4096)
    (hb : Bytes (b ∷ b' ∷ bs)) where
  -- `encode_v7` in digits.
  pub encode_v7-digits : encode_v7 ms c (b ∷ b' ∷ bs) ≡ digits ms c b b' bs
  unfolding encode_v7 digits tail_hex to_string_16
  encode_v7-digits =
      let stamp : pad_start 12 (to_string_16 ms) ≡ fixed 12 ms =
        pad_start-to_hex 14 11 ms (omega arith) hm in
      let sequence : to_string_16 (28672 + c) ≡ fixed 4 (28672 + c) =
        to_hex-fixed 14 3 (28672 + c) (omega arith) (omega arith) (omega arith) in
      let first = tail_bytes-cons (128 + b % 64) (b' ∷ bs) (omega arith) in
      let second = tail_bytes-cons b' bs hb.1.0 in
      rw (bit_or_version c hc, bit_or_variant b hb.0, stamp, sequence, first, second)
        (unfold fixed in refl)

  variant_digits-matches :
      matches (is_variant ∷ replicate 3 is_hex_any) (variant_digits b b') ≡ true
  unfolding fixed matches
  variant_digits-matches =
      rw (is_variant-digit ((128 + b % 64) / 16 % 16) (omega arith) (omega arith)) (
        matches-hex 3 (digit ((128 + b % 64) % 16) ∷ fixed 2 b') refl
          (rw (digit-is_hex ((128 + b % 64) % 16) (omega arith)) (fixed-all_hex 2 b')))

  digits-matches : length bs ≡ 6 → matches canonical (digits ms c b b' bs) ≡ true
  unfolding digits matches fixed
  digits-matches six =
      groups-matches (take 8 S) (drop 8 S) (fixed 4 (28672 + c)) (variant_digits b b')
        (tail_bytes bs) (matches-hex 8 (take 8 S) refl (all-take is_hex 8 S (fixed-all_hex 12 ms)))
        (matches-hex 4 (drop 8 S) refl (all-drop is_hex 8 S (fixed-all_hex 12 ms)))
        (matches-hex 4 (fixed 4 (28672 + c)) refl (fixed-all_hex 4 (28672 + c)))
        variant_digits-matches
        (matches-hex 12 (tail_bytes bs) (length-tail_bytes bs hb.1.1 ∙ omega (arith, six))
          (tail_bytes-all_hex bs hb.1.1))
    where
      S : Text
      S = fixed 12 ms

  to_lower_case-digits : to_lower_case (digits ms c b b' bs) ≡ digits ms c b b' bs
  unfolding digits
  to_lower_case-digits = lower_all (digits ms c b b' bs) (
      all-seq is_plain (take 8 S) _ (all-take is_plain 8 S plain_S) (
        all-seq is_plain (drop 8 S) _ (all-drop is_plain 8 S plain_S) (
          plain_seq (fixed 4 (28672 + c)) _ (fixed-all_hex 4 (28672 + c)) (
            all-seq is_plain (variant_digits b b') _
              (plain_seq (fixed 2 (128 + b % 64)) _ (fixed-all_hex 2 (128 + b % 64))
                (plain_of_hex (fixed 2 b') (fixed-all_hex 2 b')))
              (plain_of_hex (tail_bytes bs) (tail_bytes-all_hex bs hb.1.1))))))
    where
      S : Text
      S = fixed 12 ms

      plain_S : all is_plain S ≡ true
      plain_S = plain_of_hex S (fixed-all_hex 12 ms)

  version-digits : version (digits ms c b b' bs) ≡ some 7
  unfolding digits fixed version parse_int_16 parse_from
  version-digits = let seven : (28672 + c) / 16 / 16 / 16 % 16 ≡ 7 = omega arith in rw seven

  parse_int_16-stamp : parse_int_16 (fixed 12 ms) ≡ some ms
  unfolding fixed
  parse_int_16-stamp =
      parse_int_16_of_hex _ _ (all_hex_any (fixed 12 ms) (fixed-all_hex 12 ms))
      ∙ ap some (parse_from-fixed 12 ms hm)

  unix_millis-digits : unix_millis (digits ms c b b' bs) ≡ some ms
  unfolding unix_millis
  unix_millis-digits = rw (version-digits, unix_millis) (unfold digits fixed in parse_int_16-stamp)

abbrev pub IsGenerated : ℕ → Text → Type 0
IsGenerated ms id = (parse (string id) ≡ ok id) × (version id ≡ some 7) × (unix_millis id ≡ some ms)

-- An encoded identifier is canonical (parsing gives it back unchanged), is of version 7 and holds its
-- timestamp, for every timestamp of 48 bits, counter of twelve bits and eight suffix bytes.
pub encode_v7-IsGenerated :
    (ms c : ℕ) (suffix : List ℕ)
    → ms < 2 ^ 48
    → c < 4096
    → Bytes suffix
    → length suffix ≡ 8
    → IsGenerated ms (encode_v7 ms c suffix)
encode_v7-IsGenerated ms c [] hm hc hs n = absurd (omega arith)
encode_v7-IsGenerated ms c (b ∷ []) hm hc hs n = absurd (omega arith)
encode_v7-IsGenerated ms c (b ∷ b' ∷ bs) hm hc hs n = rw (encode_v7-digits ms c b b' bs hm hc hs) (
  parse_of_matches (digits ms c b b' bs) (digits-matches ms c b b' bs hm hc hs (omega arith))
      (to_lower_case-digits ms c b b' bs hm hc hs),
  version-digits ms c b b' bs hm hc hs,
  unix_millis-digits ms c b b' bs hm hc hs,
)
