-- ===== src/Events/Orders.antt =====
-- The outbox under any order of its operations (src/shared/events/postgres/store.ts).
use modular_hx_fastapi.Common.{Bool, List, Text, [], arith, inl, inr, string, subst, ◌≡◌}
use modular_hx_fastapi.Errors.{Result-cases}
use modular_hx_fastapi.Identifiers.{parse}
use modular_hx_fastapi.Events.Envelopes.{Envelope}
use modular_hx_fastapi.Events.Outbox.{Lease, Row, claim_rows, enqueue, finish_rows, transacted}
use modular_hx_fastapi.Events.Delivery.{Backend, Run, claim, finish_lease}
use modular_hx_fastapi.Events.Tables.{IsTable, insert_row-IsTable}
use modular_hx_fastapi.Events.Claims.{claim_rows-IsTable, finish_rows-IsTable, transacted-keeps}

-- An operation of an instance of the program, with the readings of the clock and how its transaction ends.
pub data Operation : Type 0 where
  enqueues : Envelope → Run → Operation
  claims : Text → Run → Operation
  finishes : Lease → Bool → Run → Operation

module _ (b : Backend) where
  unfoldable pub perform : Operation → List Row → List Row
  perform (enqueues e run) rows = (transacted run.fate (enqueue b.same_json e run.now) rows).1
  perform (claims token run) rows = (claim b token run rows).1
  perform (finishes l success run) rows = (finish_lease b l success run rows).1

  -- The tables that operations lead to, from the empty one.
  pub data Reached : List Row → Type 0 where
    created : Reached []
    performed : (o : Operation) {rows : List Row} → Reached rows → Reached (perform o rows)

  enqueue-IsTable :
      (e : Envelope) (run : Run) (rows : List Row)
      → IsTable rows
      → IsTable (transacted run.fate (enqueue b.same_json e run.now) rows).1
  unfolding enqueue
  enqueue-IsTable e run rows t =
      transacted-keeps IsTable run.fate (enqueue b.same_json e run.now) rows t
        (insert_row-IsTable b.same_json e.id e.raw run.now rows t)

  claim-IsTable :
      (token : Text) (run : Run) (rows : List Row)
      → IsTable rows
      → IsTable (claim b token run rows).1
  unfolding claim
  claim-IsTable token run rows t = elim (Result-cases (parse (string token))) [
    | inl (a, h) ↦
        let body = claim_rows b.id_less b.decode token run.first_now run.now in
        let run_body : (transacted run.fate body rows).1 ≡ (claim b token run rows).1 =
          ground arith in
        subst IsTable run_body (
          transacted-keeps IsTable run.fate body rows t
            (claim_rows-IsTable b.id_less b.decode token run.first_now run.now rows t))
    | inr (f, h) ↦
        let refused : rows ≡ (claim b token run rows).1 = ground arith in subst IsTable refused t
  ]

  finish_lease-IsTable :
      (l : Lease) (success : Bool) (run : Run) (rows : List Row)
      → IsTable rows
      → IsTable (finish_lease b l success run rows).1
  unfolding finish_lease
  finish_lease-IsTable l success run rows t =
      let body = finish_rows l.event.id l.token success run.now in
      transacted-keeps IsTable run.fate body rows t
        (finish_rows-IsTable l.event.id l.token success run.now rows t)

  perform-IsTable : (o : Operation) (rows : List Row) → IsTable rows → IsTable (perform o rows)
  unfolding perform
  perform-IsTable (enqueues e run) rows t = enqueue-IsTable e run rows t
  perform-IsTable (claims token run) rows t = claim-IsTable token run rows t
  perform-IsTable (finishes l success run) rows t = finish_lease-IsTable l success run rows t

  -- In every table that enqueuing, claiming and finishing lead to, in any order, with any readings of the
  -- clock and any ends of their transactions, no identifier stands twice, no row was tried more than five
  -- times, a lease and its time stand together, and only a pending row has a lease.
  pub Reached-IsTable : (rows : List Row) → Reached rows → IsTable rows
  Reached-IsTable _ created = tt
  Reached-IsTable _ (performed o {rows} r) = perform-IsTable o rows (Reached-IsTable rows r)
