-- ===== src/Events/Marking.antt =====
-- Which rows an operation may mark as sent, row by row (src/shared/events/postgres/store.ts).
use modular_hx_fastapi.Common.{
  Bool, Bool-cases, List, Option-cases, Text, [], arith, false, if◌then◌else◌, inl, inr, map, refl,
  same, same_iff, some, true, ℕ, ◌<◌, ◌∙◌, ◌∷◌, ◌≡◌, ◌⊎◌,
}
use modular_hx_fastapi.Events.Outbox.{
  Lease, Row, RowState, dead, finished_row, holds, is_pending, pending, processed, sent, update_row,
}
use modular_hx_fastapi.Events.Sending.{count_sent, is_sent}

-- Two lists of as many rows, related row by row.
abbrev pub Pointwise : (Row → Row → Type 0) → List Row → List Row → Type 0
Pointwise R [] [] = Unit
Pointwise R [] (s ∷ ss) = ⊥
Pointwise R (r ∷ rs) [] = ⊥
Pointwise R (r ∷ rs) (s ∷ ss) = R r s × Pointwise R rs ss

-- A row is marked as sent afterwards exactly if it was before.
abbrev pub KeepsMark : Row → Row → Type 0
KeepsMark r s = (s.event_id ≡ r.event_id) × (is_sent s ≡ is_sent r)

-- A row is held under a lease: it is the pending row of the event of the lease, with the token of the lease and
-- a time that has not come.
abbrev pub IsHeld : Lease → ℕ → Row → Type 0
IsHeld l now r =
    (r.event_id ≡ l.event.id)
    × (r.state ≡ pending)
    × (r.lease ≡ some l.token)
    × ((t : ℕ) × (r.lease_until ≡ some t) × (now < t))

-- Only a row that is held may have got its mark.
abbrev pub MayMark : Lease → ℕ → Row → Row → Type 0
MayMark l now r s = (s.event_id ≡ r.event_id) × ((is_sent s ≡ is_sent r) ⊎ IsHeld l now r)

pub kept_refl : (rows : List Row) → Pointwise KeepsMark rows rows
kept_refl [] = tt
kept_refl (r ∷ rs) = ((refl, refl), kept_refl rs)

pub kept_trans :
    (rs ss ts : List Row)
    → Pointwise KeepsMark rs ss
    → Pointwise KeepsMark ss ts
    → Pointwise KeepsMark rs ts
kept_trans [] [] [] h k = tt
kept_trans [] [] (t ∷ ts) h k = absurd k
kept_trans [] (s ∷ ss) ts h k = absurd h
kept_trans (r ∷ rs) [] ts h k = absurd h
kept_trans (r ∷ rs) (s ∷ ss) [] h k = absurd k
kept_trans (r ∷ rs) (s ∷ ss) (t ∷ ts) ((a, b), h) ((c, d), k) =
    ((c ∙ a, d ∙ b), kept_trans rs ss ts h k)

pub kept-count_sent : (rs ss : List Row) → Pointwise KeepsMark rs ss → count_sent ss ≡ count_sent rs
unfolding count_sent
kept-count_sent [] [] h = refl
kept-count_sent [] (s ∷ ss) h = absurd h
kept-count_sent (r ∷ rs) [] h = absurd h
kept-count_sent (r ∷ rs) (s ∷ ss) ((a, b), h) = rw (b, kept-count_sent rs ss h)

pub kept-map :
    (f : Row → Row) (rows : List Row)
    → ((r : Row) → KeepsMark r (f r))
    → Pointwise KeepsMark rows (map f rows)
kept-map f [] h = tt
kept-map f (r ∷ rs) h = (h r, kept-map f rs h)

pub kept-update_row :
    (id : Text) (change : Row → Row) (rows : List Row)
    → ((r : Row) → KeepsMark r (change r))
    → Pointwise KeepsMark rows (update_row id change rows)
unfolding update_row
kept-update_row id change [] h = tt
kept-update_row id change (r ∷ rs) h =
    ((if_kept r (same r.event_id id)), kept-update_row id change rs h)
  where
    if_kept : (r : Row) (b : Bool) → KeepsMark r (if b then change r else r)
    if_kept r true = h r
    if_kept r false = (refl, refl)

pub unmarked : (l : Lease) (now : ℕ) (rows : List Row) → Pointwise (MayMark l now) rows rows
unmarked l now [] = tt
unmarked l now (r ∷ rs) = ((refl, inl refl), unmarked l now rs)

pending_state : (s : RowState) → is_pending s ≡ true → s ≡ pending
pending_state pending h = refl
pending_state sent h = absurd (ground arith)
pending_state processed h = absurd (ground arith)
pending_state dead h = absurd (ground arith)

holds-IsHeld :
    (l : Lease) (now : ℕ) (r : Row) → holds l.event.id l.token now r ≡ true → IsHeld l now r
holds-IsHeld l now r h = elim (Option-cases r.lease) [
  | inl e ↦ absurd (ground arith)
  | inr (u, e) ↦ elim (Option-cases r.lease_until) [
    | inl k ↦ absurd (ground arith)
    | inr (t, k) ↦ (
      ground (arith, same_iff r.event_id l.event.id),
      pending_state r.state (ground arith),
      ground (arith, same_iff u l.token),
      (t, k, ground arith),
    )
  ]
]

one_marked :
    (l : Lease) (now : ℕ) (r : Row)
    → MayMark l now r (if holds l.event.id l.token now r then finished_row true now r else r)
one_marked l now r = elim (Bool-cases (holds l.event.id l.token now r)) [
  | inl e ↦ (ground arith, inr (holds-IsHeld l now r e))
  | inr e ↦ (ground arith, inl (ground arith))
]

-- Finishing a lease marks no other row than the one held under it.
pub marked-map :
    (l : Lease) (now : ℕ) (rows : List Row)
    → Pointwise
        (MayMark l now)
        rows
        (map (λ r. if holds l.event.id l.token now r then finished_row true now r else r) rows)
marked-map l now [] = tt
marked-map l now (r ∷ rs) = (one_marked l now r, marked-map l now rs)
