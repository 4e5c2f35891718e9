-- ===== src/Identifiers/Canonical.antt =====
-- A parsed identifier parses to itself (src/shared/id/value.ts).
use modular_hx_fastapi.Common.{
  Bool, Bool-cases, List, Text, [], and_parts, arith, inl, inr, lower_unit, refl, replicate, string,
  subst, suc, to_lower_case, true, zero, ℕ, ◌++◌, ◌∷◌, ◌≡◌,
}
use modular_hx_fastapi.Errors.{ok}
use modular_hx_fastapi.Identifiers.Values.{
  canonical, canonical_tail, is_dash, is_hex_any, is_variant, matches, parse,
}
use modular_hx_fastapi.Identifiers.Format.{parse_of_matches}

-- A class that holds of a letter in lower case if it holds of the letter.
abbrev pub IsLowering : (ℕ → Bool) → Type 0
IsLowering p = (c : ℕ) → p c ≡ true → p (lower_unit c) ≡ true

abbrev pub AllLowering : List (ℕ → Bool) → Type 0
AllLowering [] = Unit
AllLowering (p ∷ ps) = IsLowering p × AllLowering ps

is_hex_any-IsLowering : IsLowering is_hex_any
is_hex_any-IsLowering c h = ground arith

is_dash-IsLowering : IsLowering is_dash
is_dash-IsLowering c h = ground arith

is_variant-IsLowering : IsLowering is_variant
is_variant-IsLowering c h = ground arith

append-AllLowering :
    (ps qs : List (ℕ → Bool)) → AllLowering ps → AllLowering qs → AllLowering (ps ++ qs)
append-AllLowering [] qs h k = k
append-AllLowering (p ∷ ps) qs (h, hs) k = (h, append-AllLowering ps qs hs k)

hex-AllLowering : (n : ℕ) → AllLowering (replicate n is_hex_any)
hex-AllLowering zero = tt
hex-AllLowering (suc n) = (is_hex_any-IsLowering, hex-AllLowering n)

group-AllLowering :
    (n : ℕ) (ps : List (ℕ → Bool))
    → AllLowering ps
    → AllLowering (is_dash ∷ replicate n is_hex_any ++ ps)
group-AllLowering n ps h =
    (is_dash-IsLowering, append-AllLowering (replicate n is_hex_any) ps (hex-AllLowering n) h)

abbrev node_classes : List (ℕ → Bool)
node_classes = is_dash ∷ replicate 12 is_hex_any

abbrev variant_classes : List (ℕ → Bool)
variant_classes = is_dash ∷ is_variant ∷ replicate 3 is_hex_any ++ node_classes

canonical-AllLowering : AllLowering canonical
canonical-AllLowering =
    let node : AllLowering node_classes = (is_dash-IsLowering, hex-AllLowering 12) in
    let variant : AllLowering variant_classes = (
      is_dash-IsLowering,
      (
        is_variant-IsLowering,
        append-AllLowering (replicate 3 is_hex_any) node_classes (hex-AllLowering 3) node,
      ),
    ) in
    append-AllLowering (replicate 8 is_hex_any) canonical_tail (hex-AllLowering 8) (
      group-AllLowering 4 (is_dash ∷ replicate 4 is_hex_any ++ variant_classes)
        (group-AllLowering 4 variant_classes variant))

matches-lower :
    (ps : List (ℕ → Bool)) (s : Text)
    → AllLowering ps
    → matches ps s ≡ true
    → matches ps (to_lower_case s) ≡ true
unfolding matches
matches-lower [] [] k h = refl
matches-lower [] (c ∷ s) k h = absurd (ground arith)
matches-lower (p ∷ ps) [] k h = absurd (ground arith)
matches-lower (p ∷ ps) (c ∷ s) (k, ks) h =
    let (here, later) = and_parts (p c) (matches ps s) h in
    rw (k c here, matches-lower ps s ks later)

lower_unit-twice : (c : ℕ) → lower_unit (lower_unit c) ≡ lower_unit c
lower_unit-twice c = ground arith

lower-twice : (s : Text) → to_lower_case (to_lower_case s) ≡ to_lower_case s
lower-twice [] = refl
lower-twice (c ∷ s) = rw (lower_unit-twice c, lower-twice s)

-- Parsing gives an identifier that parses to itself.
pub parse-again : (s id : Text) → parse (string s) ≡ ok id → parse (string id) ≡ ok id
unfolding parse
parse-again s id h =
    let passed : matches canonical s ≡ true = elim (Bool-cases (matches canonical s)) [
      | inl e ↦ e
      | inr e ↦ absurd (ground arith)
    ] in
    let made : to_lower_case s ≡ id = ground arith in
    subst (λ (t : Text). parse (string t) ≡ ok t) made
      (parse_of_matches (to_lower_case s) (matches-lower canonical s canonical-AllLowering passed)
        (lower-twice s))
