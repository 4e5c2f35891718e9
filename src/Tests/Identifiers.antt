-- ===== src/Tests/Identifiers.antt =====
-- Identifiers of src/shared/id on concrete inputs.
use modular_hx_fastapi.Common.{List, Num, [], arith, nat, refl, ℕ, ◌∷◌}
use modular_hx_fastapi.Identifiers.{Entropy, encode_v7, fills, initial, new_id}
use modular_hx_fastapi.Identifiers.Format.{Bytes, IsGenerated, encode_v7-IsGenerated}
use modular_hx_fastapi.Identifiers.Issuing.{Called, IsValid, new_id-Called}
use modular_hx_fastapi.Identifiers.History.{Increasing, issue, issue-Increasing}

abbrev suffix_one : List ℕ
suffix_one = 1 ∷ 2 ∷ 3 ∷ 4 ∷ 5 ∷ 6 ∷ 7 ∷ 8 ∷ []

abbrev draw_one : List ℕ
draw_one = 255 ∷ 255 ∷ suffix_one

Bytes-one : Bytes suffix_one
Bytes-one = (
  omega arith,
  (
    omega arith,
    (omega arith, (omega arith, (omega arith, (omega arith, (omega arith, (omega arith, tt)))))),
  ),
)

Bytes-draw : Bytes draw_one
Bytes-draw = (omega arith, (omega arith, Bytes-one))

initial-IsValid : IsValid initial
initial-IsValid = record { bounded = omega arith; timed = tt }

-- Two calls at one time and one with the clock set back.
abbrev calls : List (Num × Entropy)
calls =
    (nat 1700000000000, fills draw_one)
    ∷ (nat 1700000000000, fills draw_one)
    ∷ (nat 5, fills draw_one)
    ∷ []

issue-Increasing_example : Increasing (issue initial calls)
issue-Increasing_example =
    issue-Increasing initial calls initial-IsValid
      ((Bytes-draw, refl), ((Bytes-draw, refl), ((Bytes-draw, refl), tt)))

new_id-Called_example : Called initial (new_id initial (nat 1700000000000) (fills draw_one))
new_id-Called_example =
    new_id-Called initial (nat 1700000000000) (fills draw_one) initial-IsValid (Bytes-draw, refl)

encode_v7-IsGenerated_example : IsGenerated 1700000000000 (encode_v7 1700000000000 7 suffix_one)
encode_v7-IsGenerated_example =
    encode_v7-IsGenerated 1700000000000 7 suffix_one (omega arith) (omega arith) Bytes-one refl
