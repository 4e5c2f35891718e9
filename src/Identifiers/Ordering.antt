-- ===== src/Identifiers/Ordering.antt =====
-- The order of generated identifiers as texts: the order of timestamp and counter
-- (src/shared/id/value.ts).
use modular_hx_fastapi.Common.{
  Bool-cases, List, Text, [], arith, drop, inl, inr, length, ltb, ltb→lt, refl, suc, sym, take,
  zero, ℕ, ◌%◌, ◌++◌, ◌+◌, ◌/◌, ◌<◌, ◌^◌, ◌∙◌, ◌∷◌, ◌≡◌, ◌⊎◌,
}
use modular_hx_fastapi.Identifiers.Values.{digit, encode_v7, tail_bytes}
use modular_hx_fastapi.Identifiers.Hex.{fixed, length-fixed, pow_16}
use modular_hx_fastapi.Identifiers.Format.{
  Bytes, after_stamp, digits, encode_v7-digits, variant_digits,
}

-- `s < t` on texts.
abbrev pub Precedes : Text → Text → Type 0
Precedes s [] = ⊥
Precedes [] (b ∷ t) = Unit
Precedes (a ∷ s) (b ∷ t) = (a < b) ⊎ ((a ≡ b) × Precedes s t)

Precedes-same : (s u v : Text) → Precedes u v → Precedes (s ++ u) (s ++ v)
Precedes-same [] u v h = h
Precedes-same (c ∷ s) u v h = inr (refl, Precedes-same s u v h)

Precedes-append : (s t u v : Text) → length s ≡ length t → Precedes s t → Precedes (s ++ u) (t ++ v)
Precedes-append [] [] u v n h = absurd h
Precedes-append (a ∷ s) [] u v n h = absurd h
Precedes-append [] (b ∷ t) u v n h = absurd (omega arith)
Precedes-append (a ∷ s) (b ∷ t) u v n (inl h) = inl h
Precedes-append (a ∷ s) (b ∷ t) u v n (inr (e, h)) =
    inr (e, Precedes-append s t u v (omega arith) h)

-- A separator at the same place does not change the order.
Precedes-split :
    (k d : ℕ) (s t u v : Text)
    → length s ≡ length t
    → Precedes s t
    → Precedes (take k s ++ (d ∷ drop k s ++ u)) (take k t ++ (d ∷ drop k t ++ v))
Precedes-split zero d s t u v n h = inr (refl, Precedes-append s t u v n h)
Precedes-split (suc k) d [] [] u v n h = absurd h
Precedes-split (suc k) d (a ∷ s) [] u v n h = absurd h
Precedes-split (suc k) d [] (b ∷ t) u v n h = absurd (omega arith)
Precedes-split (suc k) d (a ∷ s) (b ∷ t) u v n (inl h) = inl h
Precedes-split (suc k) d (a ∷ s) (b ∷ t) u v n (inr (e, h)) =
    inr (e, Precedes-split k d s t u v (omega arith) h)

digit_mono : (n m : ℕ) → n < m → m < 16 → digit n < digit m
digit_mono n m h k = ground arith

fixed_mono : (w n m : ℕ) → n < m → m < 16 ^ w → Precedes (fixed w n) (fixed w m)
unfolding fixed
fixed_mono zero n m h k = absurd (omega arith)
fixed_mono (suc w) n m h k = elim (Bool-cases (ltb (n / 16) (m / 16))) [
  | inl high ↦
      Precedes-append (fixed w (n / 16)) (fixed w (m / 16)) _ _
        (length-fixed w (n / 16) ∙ sym (length-fixed w (m / 16)))
        (fixed_mono w (n / 16) (m / 16) (ltb→lt _ _ high) (omega (arith, pow_16 w)))
  | inr low ↦
      let same_high : m / 16 ≡ n / 16 = ground arith in
      rw same_high (
        Precedes-same (fixed w (n / 16)) _ _
          (inl (digit_mono (n % 16) (m % 16) (omega (arith, same_high)) (omega arith))))
]

abbrev pub Earlier : ℕ × ℕ → ℕ × ℕ → Type 0
Earlier (ms, c) (ms', c') = (ms < ms') ⊎ ((ms ≡ ms') × (c < c'))

digits-Precedes :
    (ms c b d ms' c' b' d' : ℕ) (bs bs' : List ℕ)
    → Earlier (ms, c) (ms', c')
    → ms' < 2 ^ 48
    → c' < 4096
    → Precedes (digits ms c b d bs) (digits ms' c' b' d' bs')
unfolding digits
digits-Precedes ms c b d ms' c' b' d' bs bs' (inl e) hm hc =
    Precedes-split 8 b'-' (fixed 12 ms) (fixed 12 ms')
      (after_stamp (fixed 4 (28672 + c)) (variant_digits b d) (tail_bytes bs))
      (after_stamp (fixed 4 (28672 + c')) (variant_digits b' d') (tail_bytes bs'))
      (length-fixed 12 ms ∙ sym (length-fixed 12 ms')) (fixed_mono 12 ms ms' e hm)
digits-Precedes ms c b d ms' c' b' d' bs bs' (inr (e, k)) hm hc = rw e (
    Precedes-same (take 8 (fixed 12 ms')) _ _ (
      inr (
        refl,
        Precedes-same (drop 8 (fixed 12 ms')) _ _ (
            inr (
              refl,
              Precedes-append (fixed 4 (28672 + c)) (fixed 4 (28672 + c')) _ _
                  (length-fixed 4 (28672 + c) ∙ sym (length-fixed 4 (28672 + c')))
                  (fixed_mono 4 (28672 + c) (28672 + c') (omega arith) (omega arith)),
            )),
      )))

-- An earlier timestamp, or the same one with a smaller counter, gives the smaller text, whatever the
-- random bytes are.
pub encode_v7-Precedes :
    (ms c ms' c' : ℕ) (suffix suffix' : List ℕ)
    → Earlier (ms, c) (ms', c')
    → ms' < 2 ^ 48
    → c < 4096
    → c' < 4096
    → Bytes suffix
    → Bytes suffix'
    → length suffix ≡ 8
    → length suffix' ≡ 8
    → Precedes (encode_v7 ms c suffix) (encode_v7 ms' c' suffix')
encode_v7-Precedes ms c ms' c' [] _ h hm hc hc' hs hs' n n' = absurd (omega arith)
encode_v7-Precedes ms c ms' c' (b ∷ []) _ h hm hc hc' hs hs' n n' = absurd (omega arith)
encode_v7-Precedes ms c ms' c' (b ∷ d ∷ bs) [] h hm hc hc' hs hs' n n' = absurd (omega arith)
encode_v7-Precedes ms c ms' c' (b ∷ d ∷ bs) (b' ∷ []) h hm hc hc' hs hs' n n' = absurd (omega arith)
encode_v7-Precedes ms c ms' c' (b ∷ d ∷ bs) (b' ∷ d' ∷ bs') h hm hc hc' hs hs' n n' =
    rw
      (
        encode_v7-digits ms c b d bs (omega arith) hc hs,
        encode_v7-digits ms' c' b' d' bs' hm hc' hs',
      )
      (digits-Precedes ms c b d ms' c' b' d' bs bs' h hm hc')
