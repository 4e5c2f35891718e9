-- ===== src/Common/Texts.antt =====
-- A string of the source language, as the list of its UTF-16 code units: `length` is its `.length`.
use Prim.Native.Char.{code}
use Prim.Native.Nat.{ℕ, ◌+◌}
use Prim.Native.String.{String}
use mathlib.Core.Path.{◌≡◌, refl}
use mathlib.Core.Logic.{◌↔◌}
use mathlib.Core.Bool.{Bool, true, false, ◌&&◌, ◌||◌}
use mathlib.Core.List.{List, [], ◌∷◌, map}
use native.Mathlib.Omega.{arith}
use modular_hx_fastapi.Common.Tests.{leb, ◌==◌, if◌then◌else◌}

abbrev pub Text : Type 0
Text = List ℕ

-- An ASCII literal of the source.
abbrev pub codes : String → Text
codes String.[] = []
codes (String.◌∷◌ c s) = code c ∷ codes s

-- `a === b` on strings.
unfoldable pub same : Text → Text → Bool
same [] [] = true
same (a ∷ s) (b ∷ t) = a == b && same s t
same _ _ = false

pub same_iff : (s t : Text) → (same s t ≡ true) ↔ (s ≡ t)
unfolding same
same_iff [] [] = ground arith
same_iff [] (b ∷ t) = ground arith
same_iff (a ∷ s) [] = ground arith
same_iff (a ∷ s) (b ∷ t) = ground (arith, same_iff s t)

pub same_refl : (s : Text) → same s s ≡ true
same_refl s = (same_iff s s).1 refl

-- `a === 'literal'`.
infix 50 ◌is◌
unfoldable pub ◌is◌ : Text → String → Bool
unfolding same
t is s = same t (codes s)

pub is_iff : (t : Text) (s : String) → ((t is s) ≡ true) ↔ (t ≡ codes s)
unfolding ◌is◌
is_iff t s = same_iff t (codes s)

-- `['a', 'b'].includes(t)`.
abbrev pub one_of : Text → List String → Bool
one_of t [] = false
one_of t (s ∷ ss) = t is s || one_of t ss

abbrev pub in_range : ℕ → ℕ → ℕ → Bool
in_range lo hi c = leb lo c && leb c hi

abbrev pub is_digit : ℕ → Bool
is_digit = in_range b'0' b'9'

abbrev pub is_lower : ℕ → Bool
is_lower = in_range b'a' b'z'

abbrev pub is_upper : ℕ → Bool
is_upper = in_range b'A' b'Z'

-- `toLowerCase` on ASCII.
abbrev pub lower_unit : ℕ → ℕ
lower_unit c = if is_upper c then c + 32 else c

abbrev pub to_lower_case : Text → Text
to_lower_case = map lower_unit

pub is_self : (s : String) → (codes s is s) ≡ true
is_self s = (is_iff (codes s) s).1 refl
