-- ===== src/Identifiers/Hex.antt =====
-- Digits to base 16: padding, lengths, classes and reading back (src/shared/id/value.ts).
use mathlib.Core.List.{append_assoc}
use native.Mathlib.Nat.{pow-suc}
use modular_hx_fastapi.Common.{
  Bool-cases, Text, [], all, all-append, all_weaken, arith, inl, inr, length, length-append, ltb,
  ltb→lt, lt→ltb, refl, replicate, replicate-snoc, suc, true, zero, ℕ, ◌%◌, ◌*◌, ◌++◌, ◌+◌, ◌-◌,
  ◌/◌, ◌<◌, ◌^◌, ◌∷◌, ◌≡◌, ◌≤◌,
}
use modular_hx_fastapi.Identifiers.Values.{
  digit, hex_value, is_hex, is_hex_any, pad_start, parse_from, to_hex,
}

-- The last `w` digits, most significant first.
unfoldable pub fixed : ℕ → ℕ → Text
fixed zero n = []
fixed (suc w) n = fixed w (n / 16) ++ digit (n % 16) ∷ []

pub length-fixed : (w n : ℕ) → length (fixed w n) ≡ w
unfolding fixed
length-fixed zero n = refl
length-fixed (suc w) n =
    omega
      (arith, length-append {0} (fixed w (n / 16)) (digit (n % 16) ∷ []), length-fixed w (n / 16))

fixed-zero : (w : ℕ) → fixed w 0 ≡ replicate w b'0'
unfolding fixed
fixed-zero zero = refl
fixed-zero (suc w) = rw (fixed-zero w) (replicate-snoc w b'0')

pub pow_16 : (w : ℕ) → 16 ^ suc w ≡ 16 * 16 ^ w
pow_16 w = omega (arith, pow-suc 16 w)

one-le-pow : (w : ℕ) → 1 ≤ 16 ^ w
one-le-pow zero = omega arith
one-le-pow (suc w) = omega (arith, one-le-pow w, pow_16 w)

pad_start-digit :
    (w n : ℕ) → n < 16 → pad_start (suc w) (digit n ∷ []) ≡ fixed w (n / 16) ++ digit (n % 16) ∷ []
unfolding pad_start
pad_start-digit w n h =
    let one : suc w - 1 ≡ w = omega arith in
    let high : n / 16 ≡ 0 = omega arith in
    let low : n % 16 ≡ n = omega arith in rw (one, high, low, fixed-zero w)

pad_start-snoc : (w d : ℕ) (s : Text) → pad_start (suc w) (s ++ d ∷ []) ≡ pad_start w s ++ d ∷ []
unfolding pad_start
pad_start-snoc w d s =
    let shorter : suc w - length (s ++ d ∷ []) ≡ w - length s =
      omega (arith, length-append {0} s (d ∷ [])) in
    rw (shorter, append_assoc)

-- Enough digits, padded, are the last digits.
pub pad_start-to_hex :
    (f w n : ℕ) → suc w ≤ f → n < 16 ^ suc w → pad_start (suc w) (to_hex f n) ≡ fixed (suc w) n
unfolding to_hex fixed
pad_start-to_hex zero w n h k = absurd (omega arith)
pad_start-to_hex (suc f) zero n h k =
    let small : n < 16 = k in rw (lt→ltb n 16 small) (pad_start-digit 0 n small)
pad_start-to_hex (suc f) (suc w) n h k = elim (Bool-cases (ltb n 16)) [
  | inl small ↦ rw small (pad_start-digit (suc w) n (ltb→lt n 16 small))
  | inr large ↦
      let ih = pad_start-to_hex f w (n / 16) (omega arith) (omega (arith, pow_16 (suc w))) in
      rw (large, pad_start-snoc (suc w) (digit (n % 16)) (to_hex f (n / 16)), ih)
]

-- Reading digits continues over an appended part.
pub parse_from-append :
    (acc : ℕ) (s t : Text)
    → all is_hex_any s ≡ true
    → parse_from acc (s ++ t) ≡ parse_from (parse_from acc s) t
unfolding parse_from
parse_from-append acc [] t h = refl
parse_from-append acc (c ∷ s) t h = ground (arith, parse_from-append (16 * acc + hex_value c) s t)

pub digit-is_hex : (n : ℕ) → n < 16 → is_hex (digit n) ≡ true
digit-is_hex n h = ground arith

pub hex_value-digit : (n : ℕ) → n < 16 → hex_value (digit n) ≡ n
hex_value-digit n h = ground arith

pub fixed-all_hex : (w n : ℕ) → all is_hex (fixed w n) ≡ true
unfolding fixed
fixed-all_hex zero n = refl
fixed-all_hex (suc w) n = ground (
  arith,
  all-append is_hex (fixed w (n / 16)) (digit (n % 16) ∷ []),
  fixed-all_hex w (n / 16),
  digit-is_hex (n % 16),
)

pub all_hex_any : (s : Text) → all is_hex s ≡ true → all is_hex_any s ≡ true
all_hex_any s h = all_weaken is_hex is_hex_any s (λ c k. ground arith) h

parse_from-digit : (n : ℕ) → parse_from (n / 16) (digit (n % 16) ∷ []) ≡ n
unfolding parse_from
parse_from-digit n = ground (arith, digit-is_hex (n % 16), hex_value-digit (n % 16))

-- Reading the last digits of a number that has no more gives it back.
pub parse_from-fixed : (w n : ℕ) → n < 16 ^ w → parse_from 0 (fixed w n) ≡ n
unfolding fixed parse_from
parse_from-fixed zero n h = let e : n ≡ 0 = omega arith in rw e
parse_from-fixed (suc w) n h =
    let ih = parse_from-fixed w (n / 16) (omega (arith, pow_16 w)) in
    rw
      (
        parse_from-append 0 (fixed w (n / 16)) (digit (n % 16) ∷ [])
            (all_hex_any (fixed w (n / 16)) (fixed-all_hex w (n / 16))),
        ih,
      )
      (parse_from-digit n)

-- A number with exactly `suc w` digits prints as its last digits, with no padding.
pub to_hex-fixed :
    (f w n : ℕ) → suc w ≤ f → 16 ^ w ≤ n → n < 16 ^ suc w → to_hex f n ≡ fixed (suc w) n
unfolding to_hex fixed
to_hex-fixed zero w n h lo hi = absurd (omega arith)
to_hex-fixed (suc f) zero n h lo hi =
    let small : n < 16 = hi in let low : n % 16 ≡ n = omega arith in rw (lt→ltb n 16 small, low)
to_hex-fixed (suc f) (suc w) n h lo hi = elim (Bool-cases (ltb n 16)) [
  | inl small ↦ absurd (omega (arith, pow_16 w, ltb→lt n 16 small, one-le-pow w))
  | inr large ↦
      let ih =
        to_hex-fixed f w (n / 16) (omega arith) (omega (arith, pow_16 w))
          (omega (arith, pow_16 (suc w))) in
      rw (large, ih)
]
