-- ===== src/Clock/Advancing.antt =====
-- How the readings of the fake clock move (src/shared/clock/clock.ts).
use modular_hx_fastapi.Common.{
  List, Num, Option, Option-cases, [], ap, arith, false, inl, inr, nat, neg, non_integer, none,
  refl, some, subst, ℕ, ◌*◌, ◌+◌, ◌∙◌, ◌∷◌, ◌≡◌,
}
use modular_hx_fastapi.Clock.Fakes.{FakeClock, advance, out_of_dates, plus}

plus-plus : (x : Num) (a b : ℕ) → plus (plus x a) b ≡ plus x (a + b)
plus-plus (nat x) a b = ap nat (omega arith)
plus-plus (neg x) a b = ground arith
plus-plus non_integer a b = refl

advance-nat :
    (m : Num) (c d : FakeClock)
    → advance m c ≡ some d
    → (n : ℕ) × (m ≡ nat n)
      × (d.wall ≡ plus c.wall n)
      × (d.elapsed ≡ c.elapsed + n * 1000000)
      × (out_of_dates d.wall ≡ false)
unfolding advance
advance-nat (nat n) c d h = (n, refl, ground arith, ground arith, ground arith)
advance-nat (neg n) c d h = absurd (ground arith)
advance-nat non_integer c d h = absurd (ground arith)

-- A refused advance changes neither reading.
abbrev pub or_same : Option FakeClock → FakeClock → FakeClock
or_same none c = c
or_same (some d) c = d

-- Advances in order; a refused one throws and the next one goes on from the same clock.
abbrev pub advance_all : List Num → FakeClock → FakeClock
advance_all [] c = c
advance_all (m ∷ ms) c = advance_all ms (or_same (advance m c) c)

plus-zero : (x : Num) → x ≡ plus x 0
plus-zero (nat a) = ap nat (omega arith)
plus-zero (neg a) = ground arith
plus-zero non_integer = refl

abbrev pub MovedTogether : FakeClock → FakeClock → Type 0
MovedTogether c d = (n : ℕ) × (d.wall ≡ plus c.wall n) × (d.elapsed ≡ c.elapsed + n * 1000000)

one-MovedTogether : (m : Num) (c : FakeClock) → MovedTogether c (or_same (advance m c) c)
one-MovedTogether m c = elim (Option-cases (advance m c)) [
  | inl e ↦
      let same : c ≡ or_same (advance m c) c = ground arith in
      subst (MovedTogether c) same (0, plus-zero c.wall, omega arith)
  | inr (d, e) ↦
      let (n, i, w, t, r) = advance-nat m c d e in
      let same : d ≡ or_same (advance m c) c = ground arith in
      subst (MovedTogether c) same (n, w, t)
]

-- However often and by whatever the clock is advanced, both readings move by one and the same number of
-- milliseconds, the second one counted in nanoseconds, and neither moves back.
pub advance_all-MovedTogether : (ms : List Num) (c : FakeClock) → MovedTogether c (advance_all ms c)
advance_all-MovedTogether [] c = (0, plus-zero c.wall, omega arith)
advance_all-MovedTogether (m ∷ ms) c =
    let (n, w, t) = one-MovedTogether m c in
    let (k, w', t') = advance_all-MovedTogether ms (or_same (advance m c) c) in
    (n + k, w' ∙ ap (λ (x : Num). plus x k) w ∙ plus-plus c.wall n k, omega (arith, t, t'))
