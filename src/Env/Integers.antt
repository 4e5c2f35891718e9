-- ===== src/Env/Integers.antt =====
-- What a decimal text denotes and how numbers are ordered, apart from the parser (src/shared/env/parse.ts).
use modular_hx_fastapi.Common.{
  Bool-cases, Num, Text, [], all, ap, append-nil, append_assoc, arith, decimal_from, false, inl,
  inr, is_decimal, is_digit, is_integer, is_safe_integer, length, less, nat, neg, non_integer, refl,
  some, subst, suc, sym, true, zero, ℕ, ◌*◌, ◌++◌, ◌+◌, ◌-◌, ◌==◌, ◌∷◌, ◌≡◌, ◌≤◌, ◌⊎◌,
}
use modular_hx_fastapi.Env.Parsing.{integer, negated, safe, unsigned}
use modular_hx_fastapi.Env.Readers.{bad_range, within}

-- A text of decimal digits writes a number: a digit its own value, and a further digit ten times the number
-- before it, and the digit.
pub data Writes : Text → ℕ → Type 0 where
  one_digit : (d : ℕ) → d ≤ 9 → Writes ((48 + d) ∷ []) d
  one_more :
      {s : Text} {n : ℕ} (d : ℕ) → d ≤ 9 → Writes s n → Writes (s ++ (48 + d) ∷ []) (n * 10 + d)

-- The integer -k.
abbrev pub IsMinus : ℕ → Num → Type 0
IsMinus k (nat m) = (k ≡ 0) × (m ≡ 0)
IsMinus k (neg m) = k ≡ suc m
IsMinus k non_integer = ⊥

-- A text denotes the integer that its digits write, or with the code 45 of `-` before them its negation.
abbrev pub Denotes : Text → Num → Type 0
Denotes t n =
    ((k : ℕ) × Writes t k × (n ≡ nat k))
    ⊎ ((s : Text) × (k : ℕ) × (t ≡ 45 ∷ s) × Writes s k × IsMinus k n)

-- The order of the integers; `neg n` is -(n + 1).
abbrev pub AtMost : Num → Num → Type 0
AtMost (nat a) (nat b) = a ≤ b
AtMost (nat a) (neg b) = ⊥
AtMost (nat a) non_integer = ⊥
AtMost (neg a) (nat b) = Unit
AtMost (neg a) (neg b) = b ≤ a
AtMost (neg a) non_integer = ⊥
AtMost non_integer n = ⊥

-- Reading digits from the left gives what they write.
decimal_from-Writes :
    (s t : Text) (n : ℕ) → all is_digit t ≡ true → Writes s n → Writes (s ++ t) (decimal_from n t)
decimal_from-Writes s [] n h w = subst (λ (u : Text). Writes u n) (sym (append-nil s)) w
decimal_from-Writes s (c ∷ t) n h w =
    let d = c - 48 in
    let same_unit : 48 + d ≡ c = ground arith in
    let more : Writes (s ++ c ∷ []) (n * 10 + d) =
      subst (λ (u : ℕ). Writes (s ++ u ∷ []) (n * 10 + d)) same_unit
        (one_more d (ground arith) w) in
    subst (λ (u : Text). Writes u (decimal_from (n * 10 + d) t)) (append_assoc s (c ∷ []) t)
      (decimal_from-Writes (s ++ c ∷ []) t (n * 10 + d) (ground arith) more)

is_decimal-Writes : (t : Text) → is_decimal t ≡ true → Writes t (decimal_from 0 t)
unfolding is_decimal
is_decimal-Writes [] h = absurd (ground arith)
is_decimal-Writes (c ∷ s) h =
    let d = c - 48 in
    let same_unit : 48 + d ≡ c = ground arith in
    let first : Writes (c ∷ []) d =
      subst (λ (u : ℕ). Writes (u ∷ []) d) same_unit (one_digit d (ground arith)) in
    let digits : all is_digit s ≡ true = elim (Bool-cases (length s == 0)) [
      | inl e ↦ only_zero s e
      | inr e ↦ ground arith
    ] in
    let start : decimal_from d s ≡ decimal_from (0 * 10 + d) s =
      ap (λ (u : ℕ). decimal_from u s) (omega arith) in
    subst (Writes (c ∷ s)) start (decimal_from-Writes (c ∷ []) s d digits first)
  where
    only_zero : (s : Text) → (length s == 0) ≡ true → all is_digit s ≡ true
    only_zero [] e = refl
    only_zero (a ∷ r) e = absurd (ground arith)

safe-some : (m n : Num) → safe m ≡ some n → m ≡ n
safe-some m n h = ground arith

unsigned-Denotes : (t : Text) (n : Num) → unsigned t ≡ some n → Denotes t n
unsigned-Denotes t n h = elim (Bool-cases (is_decimal t)) [
  | inr e ↦ absurd (ground arith)
  | inl e ↦ inl (decimal_from 0 t, is_decimal-Writes t e, sym (safe-some _ n (ground arith)))
]

negated-IsMinus : (k : ℕ) → IsMinus k (negated k)
negated-IsMinus zero = (refl, refl)
negated-IsMinus (suc k) = refl

-- A parsed text denotes the integer that it is parsed to.
pub integer-Denotes : (t : Text) (n : Num) → integer t ≡ some n → Denotes t n
unfolding integer
integer-Denotes [] n h = absurd (ground arith)
integer-Denotes (c ∷ s) n h = elim (Bool-cases (c == b'-')) [
  | inr e ↦ unsigned-Denotes (c ∷ s) n (ground arith)
  | inl e ↦ elim (Bool-cases (is_decimal s)) [
    | inr d ↦ absurd (ground arith)
    | inl d ↦
        let k = decimal_from 0 s in
        let minus =
          subst (IsMinus k) (safe-some (negated k) n (ground arith)) (negated-IsMinus k) in
        inr (s, k, ground arith, is_decimal-Writes s d, minus)
  ]
]

pub integer-is_integer : (t : Text) (n : Num) → integer t ≡ some n → is_integer n ≡ true
unfolding integer
integer-is_integer [] n h = absurd (ground arith)
integer-is_integer (c ∷ s) n h = elim (integer-Denotes (c ∷ s) n h) [
  | inl (k, w, e) ↦ ground arith
  | inr (r, k, e, w, m) ↦ whole_minus k n m
]
  where
    whole_minus : (k : ℕ) (n : Num) → IsMinus k n → is_integer n ≡ true
    whole_minus k (nat a) m = refl
    whole_minus k (neg a) m = refl
    whole_minus k non_integer m = absurd m

less-AtMost :
    (a b : Num) → is_integer a ≡ true → is_integer b ≡ true → less b a ≡ false → AtMost a b
less-AtMost (nat a) (nat b) h k l = ground arith
less-AtMost (nat a) (neg b) h k l = absurd (ground arith)
less-AtMost (neg a) (nat b) h k l = tt
less-AtMost (neg a) (neg b) h k l = ground arith
less-AtMost (nat a) non_integer h k l = absurd (ground arith)
less-AtMost (neg a) non_integer h k l = absurd (ground arith)
less-AtMost non_integer b h k l = absurd (ground arith)

safe-is_integer : (n : Num) → is_safe_integer n ≡ true → is_integer n ≡ true
safe-is_integer (nat n) h = refl
safe-is_integer (neg n) h = refl
safe-is_integer non_integer h = absurd (ground arith)

-- The fallback and the bounds of a proper definition are integers.
pub bad_range-is_integer :
    (fallback low high : Num)
    → bad_range fallback low high ≡ false
    → (is_integer fallback ≡ true) × (is_integer low ≡ true) × (is_integer high ≡ true)
bad_range-is_integer fallback low high h = (
  safe-is_integer fallback (ground arith),
  safe-is_integer low (ground arith),
  safe-is_integer high (ground arith),
)

pub within-AtMost :
    (low high n : Num)
    → is_integer low ≡ true
    → is_integer high ≡ true
    → is_integer n ≡ true
    → within low high n ≡ true
    → AtMost low n × AtMost n high
within-AtMost low high n l h i w =
    (less-AtMost low n l i (ground arith), less-AtMost n high i h (ground arith))
