-- ===== src/Events/Sending.antt =====
-- What dispatching marks as sent (src/shared/events/postgres/store.ts).
use modular_hx_fastapi.Common.{
  Bool-cases, List, Text, [], any, arith, false, if◌then◌else◌, inl, inr, leb, map, refl, true, ℕ,
  ◌+◌, ◌∷◌, ◌≡◌, ◌≤◌,
}
use modular_hx_fastapi.Events.Outbox.{
  Row, bury, dead, finished_row, holds, is_exhausted, is_pending, pending, processed, sent,
}

abbrev pub is_sent : Row → ℕ
is_sent r = elim r.state [ pending ↦ 0 | sent ↦ 1 | processed ↦ 0 | dead ↦ 0 ]

-- How many rows are marked as sent.
unfoldable pub count_sent : List Row → ℕ
count_sent [] = 0
count_sent (r ∷ rs) = is_sent r + count_sent rs

pub pending_unsent : (r : Row) → is_pending r.state ≡ true → is_sent r ≡ 0
pending_unsent r h =
    elim r.state
        as (λ s.
          is_pending s ≡ true → elim s [ pending ↦ 0 | sent ↦ 1 | processed ↦ 0 | dead ↦ 0 ] ≡ 0) [
            | pending ↦ λ k. refl
            | sent ↦ λ k. absurd (ground arith)
            | processed ↦ λ k. absurd (ground arith)
            | dead ↦ λ k. absurd (ground arith)
          ]
      h

pub bury-sent : (now : ℕ) (r : Row) → is_sent (bury now r) ≡ is_sent r
unfolding bury
bury-sent now r = elim (Bool-cases (is_exhausted now r)) [
  | inl e ↦ ground (arith, pending_unsent r (ground arith))
  | inr e ↦ ground arith
]

next_state-unsent : (r : Row) (now : ℕ) → is_sent (finished_row false now r) ≡ 0
next_state-unsent r now = elim (Bool-cases (leb 5 r.attempts)) [
  | inl e ↦ ground arith
  | inr e ↦ ground arith
]

pub finished-unsent :
    (id token : Text) (now : ℕ) (r : Row)
    → is_sent (if holds id token now r then finished_row false now r else r) ≡ is_sent r
finished-unsent id token now r = elim (Bool-cases (holds id token now r)) [
  | inl e ↦ ground (arith, pending_unsent r (ground arith), next_state-unsent r now)
  | inr e ↦ ground arith
]

abbrev pub finish_row : Text → Text → ℕ → Row → Row
finish_row id token now r = if holds id token now r then finished_row true now r else r

finish_row-sent :
    (id token : Text) (now : ℕ) (r : Row)
    → is_sent (finish_row id token now r) ≡ is_sent r + (if holds id token now r then 1 else 0)
finish_row-sent id token now r = elim (Bool-cases (holds id token now r)) [
  | inl e ↦ ground (arith, pending_unsent r (ground arith))
  | inr e ↦ ground arith
]

pub finished-grows :
    (id token : Text) (now : ℕ) (rows : List Row)
    → count_sent rows + (if any (holds id token now) rows then 1 else 0)
      ≤ count_sent (map (finish_row id token now) rows)
unfolding count_sent
finished-grows id token now [] = omega arith
finished-grows id token now (r ∷ rs) =
    let here = finish_row-sent id token now r in
    let rest = finished-grows id token now rs in
    elim (Bool-cases (holds id token now r)) [
      | inl e ↦ elim (Bool-cases (any (holds id token now) rs)) [
        | inl k ↦ ground arith
        | inr k ↦ ground arith
      ]
      | inr e ↦ ground arith
    ]
