-- ===== src/Errors/Results.antt =====
-- src/shared/errors/result.ts: explicit outcomes, and the chain of early returns as a monad.
use modular_hx_fastapi.Common.{Bool, false, if◌then◌else◌, inl, inr, refl, true, ◌≡◌, ◌⊎◌}

pub data Result {ℓ κ} (A : Type ℓ) (E : Type κ) : Type (ℓ ⊔ κ) where
  ok : A → Result A E
  err : E → Result A E

unfoldable pub map_error {ℓ κ μ} :
    {A : Type ℓ} {E : Type κ} {F : Type μ} → Result A E → (E → F) → Result A F
map_error (ok a) fn = ok a
map_error (err e) fn = err (fn e)

-- `if (!r.ok) return r`: a failure ends the chain.
infixl 5 ◌>>=◌
abbrev pub ◌>>=◌ {α β ε} :
    {A : Type α} {B : Type β} {E : Type ε} → Result A E → (A → Result B E) → Result B E
err failed >>= next = err failed
ok value >>= next = next value

-- `r.ok`.
abbrev pub is_ok {ℓ κ} : {A : Type ℓ} {E : Type κ} → Result A E → Bool
is_ok (err e) = false
is_ok (ok a) = true

-- A check with nothing to hand on.
infixl 5 ◌>>◌
abbrev pub ◌>>◌ {β ε} : {B : Type β} {E : Type ε} → Result (Unit {0}) E → Result B E → Result B E
check >> rest = check >>= λ _. rest

-- `if (test) return err(e)`.
abbrev pub refuse_if {ε} : {E : Type ε} → Bool → E → Result (Unit {0}) E
refuse_if test failed = if test then err failed else ok tt

-- Both steps of a chain that succeeds have succeeded.
pub >>=-eq-ok {α β ε} :
    {A : Type α} {B : Type β} {E : Type ε} (first : Result A E) (next : A → Result B E) {out : B}
    → (first >>= next) ≡ ok out
    → (value : A) × (first ≡ ok value) × (next value ≡ ok out)
>>=-eq-ok (err failed) next h = cc
>>=-eq-ok (ok value) next h = (value, refl, h)

-- A chain that succeeds has passed its first test.
pub refuse_if-passed {ℓ μ} :
    {A : Type ℓ} {E : Type μ} (b : Bool) (e : E) (k : Result A E) {a : A}
    → (refuse_if b e >> k) ≡ ok a
    → (b ≡ false) × (k ≡ ok a)
refuse_if-passed true e k h = cc
refuse_if-passed false e k h = (refl, h)

pub pass_refuse_if {ℓ μ} :
    {A : Type ℓ} {E : Type μ} (b : Bool) (e : E) (k : Result A E) {a : A}
    → b ≡ false
    → k ≡ ok a
    → (refuse_if b e >> k) ≡ ok a
pass_refuse_if b e k h g = rw (h, g)

pub refused-false {μ} : {E : Type μ} (b : Bool) (e : E) → refuse_if b e ≡ ok tt → b ≡ false
refused-false true e h = cc
refused-false false e h = refl

pub Result-cases {ℓ κ} :
    {A : Type ℓ} {E : Type κ} (r : Result A E) → ((a : A) × (r ≡ ok a)) ⊎ ((e : E) × (r ≡ err e))
Result-cases (ok a) = inl (a, refl)
Result-cases (err e) = inr (e, refl)
