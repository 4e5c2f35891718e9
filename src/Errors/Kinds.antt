-- ===== src/Errors/Kinds.antt =====
-- src/shared/errors/kind.ts: the closed vocabulary of failure kinds.
use modular_hx_fastapi.Common.{
  List, Option, String, Text, Value, [], ap, arith, array, bool, codes, if◌then◌else◌, is_iff, none,
  null, number, object, opaque, refl, some, string, undefined, ◌is◌, ◌↔◌, ◌∙◌, ◌∷◌, ◌≡◌,
}

pub data Kind : Type 0 where
  internal invalid not_found conflict unauthenticated : Kind
  forbidden rate_limited unavailable timeout canceled : Kind

pub kind_name : Kind → String
kind_name internal = "internal"
kind_name invalid = "invalid"
kind_name not_found = "not_found"
kind_name conflict = "conflict"
kind_name unauthenticated = "unauthenticated"
kind_name forbidden = "forbidden"
kind_name rate_limited = "rate_limited"
kind_name unavailable = "unavailable"
kind_name timeout = "timeout"
kind_name canceled = "canceled"

abbrev pub kinds : List Kind
kinds =
    internal ∷ invalid ∷ not_found ∷ conflict ∷ unauthenticated ∷ forbidden ∷ rate_limited
    ∷ unavailable ∷ timeout ∷ canceled ∷ []

-- The kind of the list whose name the text is.
pub named : Text → List Kind → Option Kind
named t [] = none
named t (k ∷ ks) = if t is kind_name k then some k else named t ks

unfoldable pub parse_kind : Value → Option Kind
unfolding named kind_name ◌is◌
parse_kind (string t) = named t kinds
parse_kind _ = none

named_sound : (t : Text) (ks : List Kind) (k : Kind) → named t ks ≡ some k → t ≡ codes (kind_name k)
unfolding named
named_sound t [] k h = ground arith
named_sound t (j ∷ js) k h = ground (arith, is_iff t (kind_name j), named_sound t js k)

parse_kind-kind_name : (k : Kind) → parse_kind (string (codes (kind_name k))) ≡ some k
unfolding parse_kind
parse_kind-kind_name internal = refl
parse_kind-kind_name invalid = refl
parse_kind-kind_name not_found = refl
parse_kind-kind_name conflict = refl
parse_kind-kind_name unauthenticated = refl
parse_kind-kind_name forbidden = refl
parse_kind-kind_name rate_limited = refl
parse_kind-kind_name unavailable = refl
parse_kind-kind_name timeout = refl
parse_kind-kind_name canceled = refl

parse_kind_sound : (v : Value) (k : Kind) → parse_kind v ≡ some k → v ≡ string (codes (kind_name k))
unfolding parse_kind
parse_kind_sound (string t) k h = ap string (named_sound t kinds k h)
parse_kind_sound undefined k h = ground arith
parse_kind_sound null k h = ground arith
parse_kind_sound (bool b) k h = ground arith
parse_kind_sound (number n) k h = ground arith
parse_kind_sound (array xs) k h = ground arith
parse_kind_sound (object ps) k h = ground arith
parse_kind_sound (opaque i) k h = ground arith

-- Of all values, exactly the text that is the name of a kind parses to that kind.
pub parse_kind_iff :
    (v : Value) (k : Kind) → (parse_kind v ≡ some k) ↔ (v ≡ string (codes (kind_name k)))
parse_kind_iff v k = (λ h. parse_kind_sound v k h, λ e. ap parse_kind e ∙ parse_kind-kind_name k)
