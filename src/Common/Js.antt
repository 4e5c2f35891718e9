-- ===== src/Common/Js.antt =====
-- The dynamic values of the source language, as far as the program inspects them.
use Prim.Native.Nat.{ℕ, zero, suc, ◌+◌}
use mathlib.Core.Bool.{Bool, true, false}
use modular_hx_fastapi.Common.Tests.{leb, ltb, ◌==◌}
use modular_hx_fastapi.Common.Texts.{Text}

-- A number: an integer that is at least 0, the integer -(n + 1), or any number that is no integer
-- (fractions, infinities, NaN). The program orders a number only after it is known for an integer.
pub data Num : Type 0 where
  nat : ℕ → Num
  neg : ℕ → Num
  non_integer : Num

abbrev pub max_safe_integer : ℕ
max_safe_integer = 9007199254740991

-- `Number.isInteger`.
abbrev pub is_integer : Num → Bool
is_integer (nat n) = true
is_integer (neg n) = true
is_integer non_integer = false

-- `Number.isSafeInteger`.
abbrev pub is_safe_integer : Num → Bool
is_safe_integer (nat n) = leb n max_safe_integer
is_safe_integer (neg n) = ltb n max_safe_integer
is_safe_integer non_integer = false

-- `x < k` and `x > k`, read only behind a test for an integer.
abbrev pub below : Num → ℕ → Bool
below (nat n) k = ltb n k
below (neg n) k = true
below non_integer k = false

abbrev pub above : Num → ℕ → Bool
above (nat n) k = ltb k n
above (neg n) k = false
above non_integer k = false

-- `x === k`.
abbrev pub equals : Num → ℕ → Bool
equals (nat n) k = n == k
equals _ k = false

-- `x === y`; the numbers that are no integers are behind a test wherever the program compares.
abbrev pub same_num : Num → Num → Bool
same_num (nat a) (nat b) = a == b
same_num (neg a) (neg b) = a == b
same_num _ _ = false

-- `x < y`, read only between integers.
abbrev pub less : Num → Num → Bool
less (nat a) (nat b) = ltb a b
less (nat a) (neg b) = false
less (neg a) (nat b) = true
less (neg a) (neg b) = ltb b a
less _ _ = false

-- `x + 1`.
abbrev pub increment : Num → Num
increment (nat n) = nat (n + 1)
increment (neg zero) = nat 0
increment (neg (suc n)) = neg n
increment non_integer = non_integer

-- A value of unknown type. `opaque` is any other object or function, by its identity.
mutual
  pub data Value : Type 0 where
    undefined null : Value
    bool : Bool → Value
    number : Num → Value
    string : Text → Value
    array : Items → Value
    object : Props → Value
    opaque : ℕ → Value

  pub data Items : Type 0 where
    nil : Items
    cons : Value → Items → Items

  pub data Props : Type 0 where
    end : Props
    prop : Text → Value → Props → Props
