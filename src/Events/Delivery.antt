-- ===== src/Events/Delivery.antt =====
-- src/shared/events/postgres/store.ts: claiming, finishing and dispatching of the outbox, and publishing to
-- and consuming from the mailbox.
use modular_hx_fastapi.Common.{
  Bool, List, Option, Text, [], false, if◌then◌else◌, leb, none, same, some, string, suc, true, ℕ,
  ◌&&◌, ◌+◌,
}
use modular_hx_fastapi.Errors.{
  Failure, Result, canceled, err, failure, ok, typed_failure, unavailable, undefined,
}
use modular_hx_fastapi.Identifiers.{parse}
use modular_hx_fastapi.Events.Envelopes.{Envelope}
use modular_hx_fastapi.Events.Outbox.{
  Fate, Lease, Row, RowState, claim_rows, dead, enqueue, finish_rows, first_candidate, pending,
  processed, transacted, update_row,
}

pub record Receipt : Type 0 where
  pub event_id : Text
  pub durable : Bool

-- What the operations use of the platform: the order of identifiers and the equality of JSON texts in the
-- database, and the reading of a stored envelope.
pub record Backend : Type 0 where
  pub id_less : Text → Text → Bool
  pub same_json : Text → Text → Bool
  pub decode : Text → Result Envelope Failure

-- The readings of the clock and the end of one transaction.
pub record Run : Type 0 where
  pub fate : Fate
  pub first_now : ℕ
  pub now : ℕ

abbrev pub invalid_receipt : Failure
invalid_receipt = typed_failure unavailable "publisher receipt invalid" "events.invalid_receipt"

abbrev pub dispatch_canceled : Failure
dispatch_canceled =
    failure canceled "dispatch canceled"
      (record { type = none; fields = none; details = []; cause = undefined })

abbrev pub is_delivered : Envelope → Result Receipt Failure → Bool
is_delivered e (err f) = false
is_delivered e (ok r) = r.durable && same r.event_id e.id

module _ (b : Backend) where
  -- `Store.claim`.
  unfoldable pub claim : Text → Run → List Row → Result (Option Lease) Failure × List Row
  claim token run rows = elim (parse (string token)) [
    | err f ↦ (err f, rows)
    | ok _ ↦ transacted run.fate (claim_rows b.id_less b.decode token run.first_now run.now) rows
  ]

  -- `Store.ack` and `Store.release`, by whether the publication succeeded.
  unfoldable pub finish_lease : Lease → Bool → Run → List Row → Result (Unit {0}) Failure × List Row
  finish_lease l success run rows =
      transacted run.fate (finish_rows l.event.id l.token success run.now) rows

  abbrev pub acked : Result (Unit {0}) Failure × List Row → Result Bool Failure × List Row
  acked (ok _, rows) = (ok true, rows)
  acked (err f, rows) = (err f, rows)

  abbrev pub refused_receipt : Result Receipt Failure → Failure
  refused_receipt (ok r) = invalid_receipt
  refused_receipt (err f) = f

  abbrev pub released_lease :
      Result Receipt Failure → Result (Unit {0}) Failure × List Row → Result Bool Failure × List Row
  released_lease receipt (ok _, rows) = (err (refused_receipt receipt), rows)
  released_lease receipt (err f, rows) = (err f, rows)

  -- `dispatch` after the publication; an exception of the publisher is a mapped failure.
  unfoldable pub settle_lease :
      Lease → Result Receipt Failure → Run → List Row → Result Bool Failure × List Row
  settle_lease l receipt run rows = elim (is_delivered l.event receipt) [
    | true ↦ acked (finish_lease l true run rows)
    | false ↦ released_lease receipt (finish_lease l false run rows)
  ]

  abbrev pub dispatched :
      (Envelope → Result Receipt Failure)
      → Run
      → Result (Option Lease) Failure × List Row
      → Result Bool Failure × List Row
  dispatched publish run (err f, rows) = (err f, rows)
  dispatched publish run (ok none, rows) = (ok false, rows)
  dispatched publish run (ok (some l), rows) = settle_lease l (publish l.event) run rows

  -- `Store.dispatch`.
  unfoldable pub dispatch :
      Bool
      → Text
      → (Envelope → Result Receipt Failure)
      → Run
      → Run
      → List Row
      → Result Bool Failure × List Row
  dispatch aborted token publish first second rows = elim aborted [
    | true ↦ (err dispatch_canceled, rows)
    | false ↦ dispatched publish second (claim token first rows)
  ]

  abbrev pub received :
      Envelope → Result (Unit {0}) Failure × List Row → Result Receipt Failure × List Row
  received e (ok _, rows) = (ok (record { event_id = e.id; durable = true }), rows)
  received e (err f, rows) = (err f, rows)

  -- `Mailbox.publish`.
  unfoldable pub publish_mail : Envelope → Run → List Row → Result Receipt Failure × List Row
  publish_mail e run rows = received e (transacted run.fate (enqueue b.same_json e run.now) rows)

  abbrev pub next_mail_state : Bool → ℕ → RowState
  next_mail_state true attempts = processed
  next_mail_state false attempts = if leb 5 (suc attempts) then dead else pending

  abbrev pub handled_row : Bool → ℕ → Row → Row
  handled_row success now r = record r {
    state = next_mail_state success r.attempts;
    attempts = suc r.attempts;
    available_at = now + 100;
  }

  module _ {D : Type 0} (handler : Envelope → D → Result (Unit {0}) Failure × D) where
    -- The part of the callback of `consume` after the row is decoded: the handler works between a savepoint
    -- and its release, and is rolled back if it refuses.
    abbrev pub consumed :
        ℕ
        → Text
        → List Row
        → D
        → Result (Unit {0}) Failure × D
        → Result (Option Failure × Bool) Failure × (List Row × D)
    consumed now id rows d (ok _, d') =
        (ok (none, true), (update_row id (handled_row true now) rows, d'))
    consumed now id rows d (err f, d') =
        (ok (some f, true), (update_row id (handled_row false now) rows, d))

    abbrev pub consume_row :
        ℕ
        → Row
        → List Row
        → D
        → Result Envelope Failure
        → Result (Option Failure × Bool) Failure × (List Row × D)
    consume_row now r rows d (err f) = (err f, (rows, d))
    consume_row now r rows d (ok e) = consumed now e.id rows d (handler e d)

    -- The callback of `consume`: the rejection, if any, and whether there was a row.
    unfoldable pub consume_body :
        ℕ → ℕ → List Row × D → Result (Option Failure × Bool) Failure × (List Row × D)
    consume_body first_now now (rows, d) = elim (first_candidate b.id_less first_now rows) [
      | none ↦ (ok (none, false), (rows, d))
      | some r ↦ consume_row now r rows d (b.decode r.envelope)
    ]

    abbrev pub consume_answer : Result (Option Failure × Bool) Failure → Result Bool Failure
    consume_answer (err f) = err f
    consume_answer (ok (none, found)) = ok found
    consume_answer (ok (some f, found)) = err f

    -- `Mailbox.consume`, on the mailbox and the data of the handler, which one transaction changes together.
    unfoldable pub consume : Run → List Row × D → Result Bool Failure × (List Row × D)
    consume run s =
        let (r, s') = transacted run.fate (consume_body run.first_now run.now) s in
        (consume_answer r, s')
