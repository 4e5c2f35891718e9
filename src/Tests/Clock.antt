-- ===== src/Tests/Clock.antt =====
-- The fake clock of src/shared/clock on a concrete time.
use modular_hx_fastapi.Common.{List, Num, [], nat, refl, ◌∷◌, ◌≡◌}
use modular_hx_fastapi.Clock.{FakeClock, advance}
use modular_hx_fastapi.Clock.Advancing.{MovedTogether, advance_all, advance_all-MovedTogether}

abbrev noon : FakeClock
noon = record { wall = nat 1700000000000; elapsed = 0 }

-- The second advance is refused.
abbrev advances : List Num
advances = nat 5 ∷ nat 8640000000000000 ∷ nat 7 ∷ []

twelve : (advance_all advances noon).elapsed ≡ 12000000
unfolding advance
twelve = refl

advance_all-MovedTogether_example : MovedTogether noon (advance_all advances noon)
advance_all-MovedTogether_example = advance_all-MovedTogether advances noon
