-- ===== src/Postgres/Transactions.antt =====
-- src/shared/postgres/index.ts: one call of `transaction` as a state that the settled awaits, the timer and the
-- caller's signal move.
use modular_hx_fastapi.Common.{
  Bool, List, Option, [], false, if◌then◌else◌, none, some, suc, true, ℕ, ◌∷◌,
}
use modular_hx_fastapi.Errors.{Failure, Result, Unknown, err, ok, refuse_if, ◌>>=◌, ◌>>◌}
use modular_hx_fastapi.Postgres.Mapping.{
  PgCode, canceled_operation, commit_failure, database_closed, map_error_of, rolled_back_commit,
  timed_out, uncertain,
}

-- The await that the operation is at.
pub data Phase : Type 0 where
  beginning running rolling_back committing ended : Phase

-- What settles: BEGIN or ROLLBACK succeeds, the callback returns, COMMIT is answered, by the command
-- COMMIT or not, an await throws, or the timer or the signal stops the call.
pub data Event (A : Type 0) : Type 0 where
  begun rolled_back : Event A
  returned : Result A Failure → Event A
  commit_answered : Bool → Event A
  threw : Unknown → Event A
  stops : Bool → Event A

pub record Transaction (A : Type 0) : Type 0 where
  pub phase : Phase
  pub is_committing : Bool
  -- The value of the promise `stopped`; the callback's signal is aborted when there is one.
  pub stopped : Option Failure
  pub released : Bool
  pub destroyed : Bool
  -- The calls of `client.release`, the COMMITs sent, and whether one was answered by COMMIT.
  pub releases : ℕ
  pub commits : ℕ
  pub confirmed : Bool
  pub body : Option (Result A Failure)
  -- What the race has answered.
  pub answer : Option (Result A Failure)

-- The first value of a promise stays.
abbrev pub or_first {ℓ} : {A : Type ℓ} → Option A → A → Option A
or_first none a = some a
or_first (some b) a = some b

unfoldable pub release : {A : Type 0} → Bool → Transaction A → Transaction A
release destroy t = elim t.released [
  | true ↦ t
  | false ↦ record t { released = true; destroyed = destroy; releases = suc t.releases }
]

abbrev pub stop_failure : Bool → Bool → Failure
stop_failure true caller = uncertain
stop_failure false true = canceled_operation
stop_failure false false = timed_out

-- `stop`.
unfoldable pub stop : {A : Type 0} → Bool → Transaction A → Transaction A
stop caller t =
    let f = stop_failure t.is_committing caller in
    let u = release true t in
    record u { stopped = or_first u.stopped f; answer = or_first u.answer (err f) }

-- The operation returns: its `finally` releases the client, and it may win the race.
unfoldable pub conclude : {A : Type 0} → Result A Failure → Transaction A → Transaction A
conclude r t = let u = release false t in record u { phase = ended; answer = or_first u.answer r }

-- After the callback has returned: roll back, or send COMMIT.
unfoldable pub after_body : {A : Type 0} → Result A Failure → Transaction A → Transaction A
after_body (err f) t = record t { phase = rolling_back; body = some (err f) }
after_body (ok a) t = record t {
  phase = committing;
  is_committing = true;
  commits = suc t.commits;
  body = some (ok a);
}

unfoldable pub after_commit : {A : Type 0} → Bool → Transaction A → Transaction A
after_commit true t =
    conclude (elim t.body [ none ↦ err rolled_back_commit | some r ↦ r ])
      (record t { confirmed = true })
after_commit false t = conclude (err rolled_back_commit) t

abbrev pub connected_state : {A : Type 0} → Transaction A
connected_state = record {
  phase = beginning;
  is_committing = false;
  stopped = none;
  released = false;
  destroyed = false;
  releases = 0;
  commits = 0;
  confirmed = false;
  body = none;
  answer = none;
}

-- The state after the client is connected: the caller's signal may have been aborted meanwhile.
unfoldable pub opened : {A : Type 0} → Bool → Transaction A
opened false = connected_state
opened true = conclude (err canceled_operation) (stop true connected_state)

-- The first tests of `transaction`, and the connection.
unfoldable pub start_transaction :
    {A : Type 0} → Bool → Bool → Result Bool Failure → Result (Transaction A) Failure
start_transaction closing aborted connected = do
  refuse_if closing database_closed
  refuse_if aborted canceled_operation
  aborted_meanwhile ← connected
  ok (opened aborted_meanwhile)

module _ (pg_code : PgCode) {A : Type 0} where
  unfoldable pub after_throw : Unknown → Transaction A → Transaction A
  after_throw e t =
      conclude (err (if t.is_committing then commit_failure pg_code e else map_error_of pg_code e))
        (release true t)

  -- The event at the await where it can occur; elsewhere nothing waits for it.
  unfoldable pub move : Event A → Transaction A → Transaction A
  move (stops caller) t = stop caller t
  move begun t = elim t.phase [ beginning ↦ record t { phase = running } | _ ↦ t ]
  move (returned r) t = elim t.phase [
    | running ↦ elim t.stopped [ some f ↦ conclude (err f) t | none ↦ after_body r t ]
    | _ ↦ t
  ]
  move rolled_back t = elim t.phase [
    | rolling_back ↦ conclude (elim t.body [ none ↦ err rolled_back_commit | some r ↦ r ]) t
    | _ ↦ t
  ]
  move (commit_answered b) t = elim t.phase [ committing ↦ after_commit b t | _ ↦ t ]
  move (threw e) t = elim t.phase [ ended ↦ t | _ ↦ after_throw e t ]

  abbrev pub move_all : List (Event A) → Transaction A → Transaction A
  move_all [] t = t
  move_all (e ∷ es) t = move_all es (move e t)
