-- ===== src/Events/Mailbox.antt =====
-- The rows of the mailbox and what was handled (src/shared/events/postgres/store.ts).
use modular_hx_fastapi.Common.{
  Bool, Bool-cases, List, Text, [], ap, arith, false, if◌then◌else◌, inl, inr, leb, refl, same,
  same_iff, some, subst, suc, sym, true, ℕ, ◌&&◌, ◌+◌, ◌∙◌, ◌∷◌, ◌≡◌, ◌≤◌,
}
use modular_hx_fastapi.Events.Outbox.{
  Row, RowState, dead, insert_row, is_pending, new_row, pending, processed, sent, update_row,
}
use modular_hx_fastapi.Events.Delivery.{Backend, handled_row}
use modular_hx_fastapi.Events.Tables.{IsTable, find_row, has_id, update_row-absent}

-- A property of every row.
abbrev pub Every : (Row → Type 0) → List Row → Type 0
Every P [] = Unit
Every P (r ∷ rs) = P r × Every P rs

pub insert_row-Every :
    (P : Row → Type 0) (same_json : Text → Text → Bool) (id envelope : Text) (now : ℕ)
    (rows : List Row)
    → P (new_row id envelope now)
    → Every P rows
    → Every P (insert_row same_json id envelope now rows).1
unfolding insert_row
insert_row-Every P same_json id envelope now [] p q = (p, tt)
insert_row-Every P same_json id envelope now (r ∷ rs) p (q, qs) =
    elim (Bool-cases (same r.event_id id)) [
      | inl e ↦
          let there : r ∷ rs ≡ (insert_row same_json id envelope now (r ∷ rs)).1 = ground arith in
          subst (Every P) there (q, qs)
      | inr e ↦
          let there : r ∷ (insert_row same_json id envelope now rs).1
              ≡ (insert_row same_json id envelope now (r ∷ rs)).1 =
            ground arith in
          subst (Every P) there (q, insert_row-Every P same_json id envelope now rs p qs)
    ]

pub update_row-Every :
    (P : Row → Type 0) (id : Text) (change : Row → Row) (rows : List Row)
    → ((r : Row) → P r → P (change r))
    → Every P rows
    → Every P (update_row id change rows)
unfolding update_row
update_row-Every P id change [] k q = tt
update_row-Every P id change (r ∷ rs) k (q, qs) = elim (Bool-cases (same r.event_id id)) [
  | inl e ↦
      let there : change r ∷ update_row id change rs ≡ update_row id change (r ∷ rs) =
        ground arith in
      subst (Every P) there (k r q, update_row-Every P id change rs k qs)
  | inr e ↦
      let there : r ∷ update_row id change rs ≡ update_row id change (r ∷ rs) = ground arith in
      subst (Every P) there (q, update_row-Every P id change rs k qs)
]

pub find_row-Every :
    (P : Row → Type 0) (id : Text) (rows : List Row) (r : Row)
    → Every P rows
    → find_row id rows ≡ some r
    → P r
unfolding find_row
find_row-Every P id [] r q h = absurd (ground arith)
find_row-Every P id (x ∷ xs) r (q, qs) h = elim (Bool-cases (same x.event_id id)) [
  | inl e ↦ let here : x ≡ r = ground arith in subst P here q
  | inr e ↦ find_row-Every P id xs r qs (ground arith)
]

abbrev pub is_processed : RowState → Bool
is_processed processed = true
is_processed _ = false

abbrev pub processed_count : Text → Row → ℕ
processed_count id r = if same r.event_id id && is_processed r.state then 1 else 0

-- How often an event stands in the mailbox as processed.
unfoldable pub count_processed : Text → List Row → ℕ
count_processed id [] = 0
count_processed id (r ∷ rs) = processed_count id r + count_processed id rs

pub count_processed-absent :
    (id : Text) (rows : List Row) → has_id id rows ≡ false → count_processed id rows ≡ 0
unfolding count_processed
count_processed-absent id [] h = refl
count_processed-absent id (r ∷ rs) h = elim (Bool-cases (same r.event_id id)) [
  | inl e ↦ absurd (ground arith)
  | inr e ↦ ground (arith, count_processed-absent id rs)
]

-- Identifiers are unique, so an event is processed at most once.
pub count_processed-once :
    (id : Text) (rows : List Row) → IsTable rows → count_processed id rows ≤ 1
unfolding count_processed
count_processed-once id [] t = omega arith
count_processed-once id (r ∷ rs) (i, n, t) = elim (Bool-cases (same r.event_id id)) [
  | inl e ↦
      let same_id = (same_iff r.event_id id).0 e in
      let absent =
        count_processed-absent id rs (ap (λ (k : Text). has_id k rs) (sym same_id) ∙ n) in
      elim (Bool-cases (is_processed r.state)) [ inl k ↦ ground arith | inr k ↦ ground arith ]
  | inr e ↦ ground (arith, count_processed-once id rs t)
]

pub count_processed-insert_row :
    (other : Text) (same_json : Text → Text → Bool) (id envelope : Text) (now : ℕ) (rows : List Row)
    → count_processed other (insert_row same_json id envelope now rows).1
      ≡ count_processed other rows
unfolding count_processed insert_row
count_processed-insert_row other same_json id envelope now [] = elim (Bool-cases (same id other)) [
  | inl e ↦ ground arith
  | inr e ↦ ground arith
]
count_processed-insert_row other same_json id envelope now (r ∷ rs) =
    elim (Bool-cases (same r.event_id id)) [
      | inl e ↦ ground arith
      | inr e ↦ ground (arith, count_processed-insert_row other same_json id envelope now rs)
    ]

pending_unprocessed : (r : Row) → is_pending r.state ≡ true → is_processed r.state ≡ false
pending_unprocessed r h =
    elim r.state as (λ s. is_pending s ≡ true → is_processed s ≡ false) [
      | pending ↦ λ k. refl
      | sent ↦ λ k. refl
      | processed ↦ λ k. absurd (ground arith)
      | dead ↦ λ k. refl
    ]
      h

abbrev handled_count : Text → Bool → Row → ℕ
handled_count other success r = if same r.event_id other && success then 1 else 0

module _ (b : Backend) where
  handled_row-processed :
      (other : Text) (success : Bool) (now : ℕ) (r : Row)
      → is_pending r.state ≡ true
      → processed_count other (handled_row b success now r)
        ≡ processed_count other r + handled_count other success r
  handled_row-processed other true now r h =
      let unprocessed = pending_unprocessed r h in
      elim (Bool-cases (same r.event_id other)) [ inl e ↦ ground arith | inr e ↦ ground arith ]
  handled_row-processed other false now r h =
      let unprocessed = pending_unprocessed r h in
      elim (Bool-cases (same r.event_id other)) [
        | inl e ↦ elim (Bool-cases (leb 5 (suc r.attempts))) [
          | inl k ↦ ground arith
          | inr k ↦ ground arith
        ]
        | inr e ↦ ground arith
      ]

  -- Handling the row of an event counts it once if it succeeds.
  pub count_processed-update_row :
      (other id : Text) (success : Bool) (now : ℕ) (rows : List Row) (r : Row)
      → IsTable rows
      → find_row id rows ≡ some r
      → is_pending r.state ≡ true
      → count_processed other (update_row id (handled_row b success now) rows)
        ≡ count_processed other rows + handled_count other success r
  unfolding count_processed update_row find_row
  count_processed-update_row other id success now [] r t f h = absurd (ground arith)
  count_processed-update_row other id success now (x ∷ xs) r (i, n, t) f h =
      elim (Bool-cases (same x.event_id id)) [
        | inl e ↦
            let found : x ≡ r = ground arith in
            let same_id = (same_iff x.event_id id).0 e in
            let absent : has_id id xs ≡ false = ap (λ (k : Text). has_id k xs) (sym same_id) ∙ n in
            let rest = update_row-absent id (handled_row b success now) xs absent in
            let here =
              handled_row-processed other success now x
                (ap (λ (y : Row). is_pending y.state) found ∙ h) in
            ground (arith, rest, here, ap (handled_count other success) found)
        | inr e ↦
            ground (arith, count_processed-update_row other id success now xs r t (ground arith) h)
      ]
