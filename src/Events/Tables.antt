-- ===== src/Events/Tables.antt =====
-- What holds of the rows of the outbox and the mailbox (src/shared/events/postgres/store.ts).
use modular_hx_fastapi.Common.{
  Bool, Bool-cases, List, Option, Text, [], any, ap, arith, false, inl, inr, map, none, refl, same,
  same_iff, some, subst, sym, true, ℕ, ◌∙◌, ◌∷◌, ◌≡◌, ◌≤◌,
}
use modular_hx_fastapi.Events.Outbox.{
  Row, bury, dead, insert_row, is_exhausted, is_pending, new_row, update_row,
}

abbrev pub is_there {ℓ} : {A : Type ℓ} → Option A → Bool
is_there none = false
is_there (some a) = true

-- The checks that the tables declare, and that only pending rows are leased.
pub record IsRow (r : Row) : Type 0 where
  pub bounded : r.attempts ≤ 5
  pub paired : is_there r.lease ≡ is_there r.lease_until
  pub idle : is_pending r.state ≡ false → is_there r.lease ≡ false

abbrev pub has_id : Text → List Row → Bool
has_id id rows = any (λ (r : Row). same r.event_id id) rows

-- The rows keep the checks, and identifiers are a primary key.
abbrev pub IsTable : List Row → Type 0
IsTable [] = Unit
IsTable (r ∷ rs) = IsRow r × (has_id r.event_id rs ≡ false) × IsTable rs

-- The row of an identifier.
unfoldable pub find_row : Text → List Row → Option Row
find_row id [] = none
find_row id (r ∷ rs) = elim (same r.event_id id) [ true ↦ some r | false ↦ find_row id rs ]

has_id-map :
    (f : Row → Row) (id : Text) (rows : List Row)
    → ((r : Row) → (f r).event_id ≡ r.event_id)
    → has_id id (map f rows) ≡ has_id id rows
has_id-map f id [] h = refl
has_id-map f id (r ∷ rs) h = rw (h r, has_id-map f id rs h)

-- A change of every row keeps the table if it keeps rows and their identifiers.
pub map-IsTable :
    (f : Row → Row) (rows : List Row)
    → ((r : Row) → (f r).event_id ≡ r.event_id)
    → ((r : Row) → IsRow r → IsRow (f r))
    → IsTable rows
    → IsTable (map f rows)
map-IsTable f [] h k t = tt
map-IsTable f (r ∷ rs) h k (i, n, t) = (
  k r i,
  has_id-map f (f r).event_id rs h ∙ ap (λ (x : Text). has_id x rs) (h r) ∙ n,
  map-IsTable f rs h k t,
)

new_row-IsRow : (id envelope : Text) (now : ℕ) → IsRow (new_row id envelope now)
new_row-IsRow id envelope now = record { bounded = omega arith; paired = refl; idle = λ h. refl }

has_id-insert_row :
    (same_json : Text → Text → Bool) (id envelope other : Text) (now : ℕ) (rows : List Row)
    → same id other ≡ false
    → has_id other (insert_row same_json id envelope now rows).1 ≡ has_id other rows
unfolding insert_row
has_id-insert_row same_json id envelope other now [] h = ground arith
has_id-insert_row same_json id envelope other now (r ∷ rs) h =
    elim (Bool-cases (same r.event_id id)) [
      | inl e ↦ ground arith
      | inr e ↦ ground (arith, has_id-insert_row same_json id envelope other now rs h)
    ]

differ_sym : (s t : Text) → same s t ≡ false → same t s ≡ false
differ_sym s t h = ground (arith, same_iff s t, same_iff t s)

pub insert_row-IsTable :
    (same_json : Text → Text → Bool) (id envelope : Text) (now : ℕ) (rows : List Row)
    → IsTable rows
    → IsTable (insert_row same_json id envelope now rows).1
unfolding insert_row
insert_row-IsTable same_json id envelope now [] t = (new_row-IsRow id envelope now, refl, tt)
insert_row-IsTable same_json id envelope now (r ∷ rs) (i, n, t) =
    elim (Bool-cases (same r.event_id id)) [
      | inl e ↦
          let unchanged : r ∷ rs ≡ (insert_row same_json id envelope now (r ∷ rs)).1 =
            ground arith in
          subst IsTable unchanged (i, n, t)
      | inr e ↦
          let rest = (insert_row same_json id envelope now rs).1 in
          let grown : r ∷ rest ≡ (insert_row same_json id envelope now (r ∷ rs)).1 = ground arith in
          subst IsTable grown (
            i,
            has_id-insert_row same_json id envelope r.event_id now rs (differ_sym r.event_id id e)
                ∙ n,
            insert_row-IsTable same_json id envelope now rs t,
          )
    ]

bury-IsRow : (now : ℕ) (r : Row) → IsRow r → IsRow (bury now r)
unfolding bury
bury-IsRow now r i = elim (Bool-cases (is_exhausted now r)) [
  | inl e ↦
      let buried : record r { state = dead; lease = none; lease_until = none } ≡ bury now r =
        ground arith in
      subst IsRow buried (record { bounded = i.bounded; paired = refl; idle = λ h. refl })
  | inr e ↦ subst IsRow (ground arith) i
]

bury-id : (now : ℕ) (r : Row) → (bury now r).event_id ≡ r.event_id
unfolding bury
bury-id now r = elim (Bool-cases (is_exhausted now r)) [
  | inl e ↦ ground arith
  | inr e ↦ ground arith
]

pub bury-IsTable : (now : ℕ) (rows : List Row) → IsTable rows → IsTable (map (bury now) rows)
bury-IsTable now rows t = map-IsTable (bury now) rows (bury-id now) (bury-IsRow now) t

pub update_row-absent :
    (id : Text) (change : Row → Row) (rows : List Row)
    → has_id id rows ≡ false
    → update_row id change rows ≡ rows
unfolding update_row
update_row-absent id change [] h = refl
update_row-absent id change (r ∷ rs) h = ground (arith, update_row-absent id change rs)

has_id-update_row :
    (id other : Text) (change : Row → Row) (rows : List Row)
    → ((r : Row) → (change r).event_id ≡ r.event_id)
    → has_id other (update_row id change rows) ≡ has_id other rows
unfolding update_row
has_id-update_row id other change [] h = refl
has_id-update_row id other change (r ∷ rs) h = elim (Bool-cases (same r.event_id id)) [
  | inl e ↦ ground (arith, h r, has_id-update_row id other change rs h)
  | inr e ↦ ground (arith, has_id-update_row id other change rs h)
]

-- Changing the row of an identifier keeps the table if it keeps that row.
pub update_row-IsTable :
    (id : Text) (change : Row → Row) (rows : List Row) (r : Row)
    → ((x : Row) → (change x).event_id ≡ x.event_id)
    → find_row id rows ≡ some r
    → IsRow (change r)
    → IsTable rows
    → IsTable (update_row id change rows)
unfolding update_row find_row
update_row-IsTable id change [] r h f c t = tt
update_row-IsTable id change (x ∷ xs) r h f c (i, n, t) = elim (Bool-cases (same x.event_id id)) [
  | inl e ↦
      let found : r ≡ x = ground arith in
      let same_id = (same_iff x.event_id id).0 e in
      let rest =
        update_row-absent id change xs (ap (λ (k : Text). has_id k xs) (sym same_id) ∙ n) in
      let changed : change x ∷ xs ≡ update_row id change (x ∷ xs) = ground (arith, rest) in
      subst IsTable changed
        (subst (λ (y : Row). IsRow (change y)) found c, ap (λ (k : Text). has_id k xs) (h x) ∙ n, t)
  | inr e ↦
      let kept : x ∷ update_row id change xs ≡ update_row id change (x ∷ xs) = ground arith in
      subst IsTable kept (
        i,
        has_id-update_row id x.event_id change xs h ∙ n,
        update_row-IsTable id change xs r h (ground arith) c t,
      )
]
