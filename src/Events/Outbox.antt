-- ===== src/Events/Outbox.antt =====
-- src/shared/events/postgres/store.ts: the outbox and the mailbox, as tables and the statements on them. A
-- statement reads the clock of the database once; a transaction commits all of its statements, or none.
use modular_hx_fastapi.Common.{
  Bool, List, Option, String, Text, [], any, false, if◌then◌else◌, leb, ltb, map, none, same, some,
  suc, true, ℕ, ◌&&◌, ◌+◌, ◌==◌, ◌||◌, ◌∷◌,
}
use modular_hx_fastapi.Errors.{Failure, Result, conflict, err, ok, typed_failure}
use modular_hx_fastapi.Postgres.{uncertain}
use modular_hx_fastapi.Events.Envelopes.{Envelope}

pub data RowState : Type 0 where
  pending sent processed dead : RowState

-- A row of `n2f_outbox`; a row of `n2f_mailbox` never has a lease.
pub record Row : Type 0 where
  pub event_id : Text
  pub envelope : Text
  pub state : RowState
  pub attempts : ℕ
  pub available_at : ℕ
  pub lease : Option Text
  pub lease_until : Option ℕ

abbrev pub is_pending : RowState → Bool
is_pending pending = true
is_pending _ = false

abbrev pub conflict_of : String → Failure
conflict_of type = typed_failure conflict "event delivery conflict" type

abbrev pub new_row : Text → Text → ℕ → Row
new_row id envelope now = record {
  event_id = id;
  envelope = envelope;
  state = pending;
  attempts = 0;
  available_at = now;
  lease = none;
  lease_until = none;
}

-- The statement of `insert`, with the equality of JSON texts: the count of rows is 1 or 0.
unfoldable pub insert_row : (Text → Text → Bool) → Text → Text → ℕ → List Row → Bool × List Row
insert_row same_json id envelope now [] = (true, new_row id envelope now ∷ [])
insert_row same_json id envelope now (r ∷ rs) = elim (same r.event_id id) [
  | true ↦ (same_json r.envelope envelope, r ∷ rs)
  | false ↦ let (counted, rest) = insert_row same_json id envelope now rs in (counted, r ∷ rest)
]

-- How a transaction ends: it commits, it fails and leaves the tables as they were, or its COMMIT is not
-- answered, and it was applied or not.
pub data Fate : Type 0 where
  commits : Fate
  fails : Failure → Fate
  unanswered : Bool → Fate

-- `Database.transaction` on a table, with the callback as a function: a callback's failure rolls back.
abbrev pub settle_commit : {A S : Type 0} → Fate → S → A → S → Result A Failure × S
settle_commit commits old a new = (ok a, new)
settle_commit (fails f) old a new = (err f, old)
settle_commit (unanswered true) old a new = (err uncertain, new)
settle_commit (unanswered false) old a new = (err uncertain, old)

abbrev pub settle_rollback : {A S : Type 0} → Fate → S → Failure → Result A Failure × S
settle_rollback (fails g) old f = (err g, old)
settle_rollback _ old f = (err f, old)

abbrev pub settled : {A S : Type 0} → Fate → S → Result A Failure → S → Result A Failure × S
settled fate old (ok a) new = settle_commit fate old a new
settled fate old (err f) new = settle_rollback fate old f

unfoldable pub transacted :
    {A S : Type 0} → Fate → (S → Result A Failure × S) → S → Result A Failure × S
transacted fate body old = let (r, new) = body old in settled fate old r new

-- `insert` and `enqueue`.
unfoldable pub enqueue :
    (Text → Text → Bool) → Envelope → ℕ → List Row → Result (Unit {0}) Failure × List Row
enqueue same_json e now rows =
    let (counted, new) = insert_row same_json e.id e.raw now rows in
    (if counted then ok tt else err (conflict_of "events.id_reused"), new)

abbrev pub lapsed : Option ℕ → ℕ → Bool
lapsed none now = true
lapsed (some t) now = leb t now

-- The first statement of `claim`: what was tried five times and has no lease any more is dead.
abbrev pub is_exhausted : ℕ → Row → Bool
is_exhausted now r = is_pending r.state && r.attempts == 5 && lapsed r.lease_until now

unfoldable pub bury : ℕ → Row → Row
bury now r = elim (is_exhausted now r) [
  | true ↦ record r { state = dead; lease = none; lease_until = none }
  | false ↦ r
]

-- The candidates of the second statement.
abbrev pub is_candidate : ℕ → Row → Bool
is_candidate now r =
    is_pending r.state && ltb r.attempts 5 && leb r.available_at now && lapsed r.lease_until now

-- `ORDER BY available_at,event_id`, with the order of the identifiers as an argument.
abbrev pub is_before : (Text → Text → Bool) → Row → Row → Bool
is_before id_less a b =
    ltb a.available_at b.available_at
    || (a.available_at == b.available_at && id_less a.event_id b.event_id)

abbrev pub sooner : (Text → Text → Bool) → Row → Option Row → Row
sooner id_less r none = r
sooner id_less r (some s) = if is_before id_less s r then s else r

-- The candidate that the second statement locks.
unfoldable pub first_candidate : (Text → Text → Bool) → ℕ → List Row → Option Row
first_candidate id_less now [] = none
first_candidate id_less now (r ∷ rs) =
    let rest = first_candidate id_less now rs in
    elim (is_candidate now r) [ true ↦ some (sooner id_less r rest) | false ↦ rest ]

abbrev pub leased : Text → ℕ → Row → Row
leased token now r = record r {
  lease = some token;
  lease_until = some (now + 30000);
  attempts = suc r.attempts;
}

-- `UPDATE ... WHERE event_id=id`.
unfoldable pub update_row : Text → (Row → Row) → List Row → List Row
update_row id change [] = []
update_row id change (r ∷ rs) =
    (if same r.event_id id then change r else r) ∷ update_row id change rs

pub record Lease : Type 0 where
  pub event : Envelope
  pub token : Text
  pub attempt : ℕ

-- The callback of `claim`, with the two readings of the clock.
abbrev claimed_row : (Text → Result Envelope Failure) → Text → Row → Result (Option Lease) Failure
claimed_row decode token r = elim (decode r.envelope) [
  | err f ↦ err f
  | ok e ↦ ok (some (record { event = e; token = token; attempt = suc r.attempts }))
]

unfoldable pub claim_rows :
    (Text → Text → Bool)
    → (Text → Result Envelope Failure)
    → Text
    → ℕ
    → ℕ
    → List Row
    → Result (Option Lease) Failure × List Row
claim_rows id_less decode token first_now now rows =
    let kept = map (bury first_now) rows in
    elim (first_candidate id_less now kept) [
      | none ↦ (ok none, kept)
      | some r ↦ (claimed_row decode token r, update_row r.event_id (leased token now) kept)
    ]

-- The rows that `finish` may change.
abbrev pub holds : Text → Text → ℕ → Row → Bool
holds id token now r =
    same r.event_id id
    && is_pending r.state
    && elim r.lease [ none ↦ false | some t ↦ same t token ]
    && elim r.lease_until [ none ↦ false | some t ↦ ltb now t ]

abbrev pub next_state : Bool → ℕ → RowState
next_state true attempts = sent
next_state false attempts = if leb 5 attempts then dead else pending

abbrev pub finished_row : Bool → ℕ → Row → Row
finished_row success now r = record r {
  state = next_state success r.attempts;
  lease = none;
  lease_until = none;
  available_at = now + 100;
}

-- The callback of `finish`; identifiers are unique, so at most one row changes.
unfoldable pub finish_rows :
    Text → Text → Bool → ℕ → List Row → Result (Unit {0}) Failure × List Row
finish_rows id token success now rows = (
  if any (holds id token now) rows then ok tt else err (conflict_of "events.lease_lost"),
  map (λ r. if holds id token now r then finished_row success now r else r) rows,
)
