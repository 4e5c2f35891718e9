-- ===== src/Events/Claims.antt =====
-- Every order of enqueuing, claiming and finishing keeps the outbox well formed
-- (src/shared/events/postgres/store.ts).
use modular_hx_fastapi.Common.{
  Bool, Bool-cases, List, Option, Option-cases, Text, [], ap, arith, false, if◌then◌else◌, inl, inr,
  map, none, refl, same, same_iff, same_refl, some, subst, sym, true, ℕ, ◌∷◌, ◌≡◌, ◌⊎◌,
}
use modular_hx_fastapi.Errors.{Failure, Result, Result-cases, err, ok}
use modular_hx_fastapi.Events.Envelopes.{Envelope}
use modular_hx_fastapi.Events.Outbox.{
  Fate, Row, bury, claim_rows, commits, fails, finish_rows, finished_row, first_candidate, holds,
  is_before, is_candidate, leased, settle_commit, settle_rollback, settled, sooner, transacted,
  unanswered, update_row,
}
use modular_hx_fastapi.Events.Tables.{
  IsRow, IsTable, bury-IsTable, find_row, has_id, map-IsTable, update_row-IsTable,
}

find_row-has_id :
    (id : Text) (rows : List Row) (r : Row) → find_row id rows ≡ some r → has_id id rows ≡ true
unfolding find_row
find_row-has_id id [] r h = absurd (ground arith)
find_row-has_id id (x ∷ xs) r h = elim (Bool-cases (same x.event_id id)) [
  | inl e ↦ ground arith
  | inr e ↦ ground (arith, find_row-has_id id xs r (ground arith))
]

other_id :
    (x : Row) (xs : List Row) (id : Text)
    → has_id x.event_id xs ≡ false
    → has_id id xs ≡ true
    → same x.event_id id ≡ false
other_id x xs id h k = elim (Bool-cases (same x.event_id id)) [
  | inr e ↦ e
  | inl e ↦
      let same_id = (same_iff x.event_id id).0 e in
      absurd (ground (arith, ap (λ (y : Text). has_id y xs) same_id))
]

abbrev pub IsFound : ℕ → List Row → Row → Type 0
IsFound now rows r = (find_row r.event_id rows ≡ some r) × (is_candidate now r ≡ true)

candidate_here :
    (now : ℕ) (x : Row) (xs : List Row) → is_candidate now x ≡ true → IsFound now (x ∷ xs) x
unfolding find_row
candidate_here now x xs h = (ground (arith, same_refl x.event_id), h)

candidate_later :
    (now : ℕ) (x : Row) (xs : List Row) (r : Row)
    → has_id x.event_id xs ≡ false
    → IsFound now xs r
    → IsFound now (x ∷ xs) r
unfolding find_row
candidate_later now x xs r n (f, c) =
    (ground (arith, other_id x xs r.event_id n (find_row-has_id r.event_id xs r f)), c)

module _ (id_less : Text → Text → Bool) where
  sooner-cases :
      (x : Row) (o : Option Row) (r : Row) → sooner id_less x o ≡ r → (r ≡ x) ⊎ (o ≡ some r)
  sooner-cases x none r h = inl (sym h)
  sooner-cases x (some s) r h = elim (Bool-cases (is_before id_less s x)) [
    | inl b ↦ inr (ground arith)
    | inr b ↦ inl (ground arith)
  ]

  pub first_candidate-IsFound :
      (now : ℕ) (rows : List Row) (r : Row)
      → IsTable rows
      → first_candidate id_less now rows ≡ some r
      → IsFound now rows r
  unfolding first_candidate
  first_candidate-IsFound now [] r t h = absurd (ground arith)
  first_candidate-IsFound now (x ∷ xs) r (i, n, t) h = elim (Bool-cases (is_candidate now x)) [
    | inr c ↦ candidate_later now x xs r n (first_candidate-IsFound now xs r t (ground arith))
    | inl c ↦ elim (sooner-cases x (first_candidate id_less now xs) r (ground arith)) [
      | inl e ↦ subst (λ (y : Row). IsFound now (x ∷ xs) y) (sym e) (candidate_here now x xs c)
      | inr e ↦ candidate_later now x xs r n (first_candidate-IsFound now xs r t e)
    ]
  ]

pub find_row-IsRow :
    (id : Text) (rows : List Row) (r : Row) → IsTable rows → find_row id rows ≡ some r → IsRow r
unfolding find_row
find_row-IsRow id [] r t h = absurd (ground arith)
find_row-IsRow id (x ∷ xs) r (i, n, t) h = elim (Bool-cases (same x.event_id id)) [
  | inl e ↦ let here : x ≡ r = ground arith in subst IsRow here i
  | inr e ↦ find_row-IsRow id xs r t (ground arith)
]

leased-IsRow :
    (token : Text) (first_now now : ℕ) (r : Row)
    → is_candidate first_now r ≡ true
    → IsRow (leased token now r)
leased-IsRow token first_now now r c = record {
  bounded = ground arith;
  paired = refl;
  idle = λ h. absurd (ground arith);
}

finished_row-IsRow :
    (success : Bool) (now : ℕ) (r : Row) → IsRow r → IsRow (finished_row success now r)
finished_row-IsRow success now r i = record { bounded = i.bounded; paired = refl; idle = λ h. refl }

settle_commit-keeps :
    {A S : Type 0} (P : S → Type 0) (fate : Fate) (old : S) (a : A) (new : S)
    → P old
    → P new
    → P (settle_commit fate old a new).1
settle_commit-keeps P commits old a new p q = q
settle_commit-keeps P (fails f) old a new p q = p
settle_commit-keeps P (unanswered true) old a new p q = q
settle_commit-keeps P (unanswered false) old a new p q = p

settle_rollback-keeps :
    (A : Type 0) {S : Type 0} (P : S → Type 0) (fate : Fate) (old : S) (f : Failure)
    → P old
    → P (settle_rollback {A = A} fate old f).1
settle_rollback-keeps A P commits old f p = p
settle_rollback-keeps A P (fails g) old f p = p
settle_rollback-keeps A P (unanswered b) old f p = p

-- A transaction leaves the state before it, or the one that its callback made.
pub transacted-keeps :
    {A S : Type 0} (P : S → Type 0) (fate : Fate) (body : S → Result A Failure × S) (old : S)
    → P old
    → P (body old).1
    → P (transacted fate body old).1
unfolding transacted
transacted-keeps P fate body old p q = elim (Result-cases (body old).0) [
  | inl (a, h) ↦
      subst (λ r. P (settled fate old r (body old).1).1) (sym h)
        (settle_commit-keeps P fate old a (body old).1 p q)
  | inr (f, h) ↦
      subst (λ r. P (settled fate old r (body old).1).1) (sym h)
        (settle_rollback-keeps _ P fate old f p)
]

settled_done :
    {A S : Type 0} (fate : Fate) (old : S) (a : A) (p : Result A Failure × S)
    → (settled fate old p.0 p.1).0 ≡ ok a
    → settled fate old p.0 p.1 ≡ p
settled_done commits old a (ok x, new) h = refl
settled_done (fails f) old a (ok x, new) h = absurd (ground arith)
settled_done (unanswered true) old a (ok x, new) h = absurd (ground arith)
settled_done (unanswered false) old a (ok x, new) h = absurd (ground arith)
settled_done commits old a (err f, new) h = absurd (ground arith)
settled_done (fails g) old a (err f, new) h = absurd (ground arith)
settled_done (unanswered b) old a (err f, new) h = absurd (ground arith)

-- A transaction that answers a value has committed.
pub transacted-done :
    {A S : Type 0} (fate : Fate) (body : S → Result A Failure × S) (old : S) (a : A)
    → (transacted fate body old).0 ≡ ok a
    → transacted fate body old ≡ body old
unfolding transacted
transacted-done fate body old a h = settled_done fate old a (body old) h

-- What the second statement of `claim` leaves.
pub claim_rows-IsTable :
    (id_less : Text → Text → Bool) (decode : Text → Result Envelope Failure) (token : Text)
    (first_now now : ℕ) (rows : List Row)
    → IsTable rows
    → IsTable (claim_rows id_less decode token first_now now rows).1
unfolding claim_rows
claim_rows-IsTable id_less decode token first_now now rows t =
    let kept_rows = map (bury first_now) rows in
    let u = bury-IsTable first_now rows t in
    elim (Option-cases (first_candidate id_less now kept_rows)) [
      | inl h ↦
          let same_rows : kept_rows ≡ (claim_rows id_less decode token first_now now rows).1 =
            ground arith in
          subst IsTable same_rows u
      | inr (r, h) ↦
          let f = first_candidate-IsFound id_less now kept_rows r u h in
          let changed : update_row r.event_id (leased token now) kept_rows
              ≡ (claim_rows id_less decode token first_now now rows).1 =
            ground arith in
          subst IsTable changed (
            update_row-IsTable r.event_id (leased token now) kept_rows r (λ x. refl) f.0
              (leased-IsRow token now now r f.1) u)
    ]

finished-IsRow :
    (id token : Text) (success : Bool) (now : ℕ) (r : Row)
    → IsRow r
    → IsRow (if holds id token now r then finished_row success now r else r)
finished-IsRow id token success now r i = elim (Bool-cases (holds id token now r)) [
  | inl e ↦
      let there : finished_row success now r
          ≡ (if holds id token now r then finished_row success now r else r) =
        ground arith in
      subst IsRow there (finished_row-IsRow success now r i)
  | inr e ↦
      let there : r ≡ (if holds id token now r then finished_row success now r else r) =
        ground arith in
      subst IsRow there i
]

finished-id :
    (id token : Text) (success : Bool) (now : ℕ) (r : Row)
    → (if holds id token now r then finished_row success now r else r).event_id ≡ r.event_id
finished-id id token success now r = elim (Bool-cases (holds id token now r)) [
  | inl e ↦ ground arith
  | inr e ↦ ground arith
]

pub finish_rows-IsTable :
    (id token : Text) (success : Bool) (now : ℕ) (rows : List Row)
    → IsTable rows
    → IsTable (finish_rows id token success now rows).1
unfolding finish_rows
finish_rows-IsTable id token success now rows t =
    map-IsTable (λ r. if holds id token now r then finished_row success now r else r) rows
      (finished-id id token success now) (finished-IsRow id token success now) t
