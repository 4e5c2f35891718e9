-- ===== src/Events/Dispatches.antt =====
-- Dispatching marks an event as sent only after a durable receipt (src/shared/events/postgres/store.ts).
use modular_hx_fastapi.Common.{
  Bool, Bool-cases, List, Option, Option-cases, Text, and_parts, any, ap, arith, false,
  if◌then◌else◌, inl, inr, map, none, refl, same, same_iff, some, string, subst, suc, sym, true, ℕ,
  ◌∙◌, ◌≡◌, ◌≤◌, ◌⊎◌,
}
use modular_hx_fastapi.Errors.{Failure, Result, Result-cases, err, ok}
use modular_hx_fastapi.Identifiers.{parse}
use modular_hx_fastapi.Events.Envelopes.{Envelope}
use modular_hx_fastapi.Events.Outbox.{
  Lease, Row, bury, claim_rows, finish_rows, finished_row, first_candidate, holds, is_exhausted,
  leased, transacted, update_row,
}
use modular_hx_fastapi.Events.Delivery.{
  Backend, Receipt, Run, acked, claim, dispatch, dispatch_canceled, dispatched, finish_lease,
  is_delivered, refused_receipt, released_lease, settle_lease,
}
use modular_hx_fastapi.Events.Claims.{transacted-done, transacted-keeps}
use modular_hx_fastapi.Events.Sending.{bury-sent, count_sent, finished-grows, finished-unsent}
use modular_hx_fastapi.Events.Marking.{
  KeepsMark, MayMark, Pointwise, kept-count_sent, kept-map, kept-update_row, kept_refl, kept_trans,
  marked-map, unmarked,
}

bury_kept : (now : ℕ) (r : Row) → KeepsMark r (bury now r)
unfolding bury
bury_kept now r = elim (Bool-cases (is_exhausted now r)) [
  | inl e ↦ (ground arith, bury-sent now r)
  | inr e ↦ (ground arith, bury-sent now r)
]

finish_kept :
    (id token : Text) (now : ℕ) (r : Row)
    → KeepsMark r (if holds id token now r then finished_row false now r else r)
finish_kept id token now r = (same_id, finished-unsent id token now r)
  where
    same_id : (if holds id token now r then finished_row false now r else r).event_id ≡ r.event_id
    same_id = elim (Bool-cases (holds id token now r)) [
      | inl e ↦ ground arith
      | inr e ↦ ground arith
    ]

module _ (id_less : Text → Text → Bool) (decode : Text → Result Envelope Failure) where
  claim_rows-kept :
      (token : Text) (first_now now : ℕ) (rows : List Row)
      → Pointwise KeepsMark rows (claim_rows id_less decode token first_now now rows).1
  unfolding claim_rows
  claim_rows-kept token first_now now rows =
      let kept_rows = map (bury first_now) rows in
      let buried = kept-map (bury first_now) rows (bury_kept first_now) in
      elim (Option-cases (first_candidate id_less now kept_rows)) [
        | inl h ↦
            let there : kept_rows ≡ (claim_rows id_less decode token first_now now rows).1 =
              ground arith in
            subst (Pointwise KeepsMark rows) there buried
        | inr (r, h) ↦
            let changed = update_row r.event_id (leased token now) kept_rows in
            let there : changed ≡ (claim_rows id_less decode token first_now now rows).1 =
              ground arith in
            subst (Pointwise KeepsMark rows) there (
              kept_trans rows kept_rows changed buried
                (kept-update_row r.event_id (leased token now) kept_rows (λ x. (refl, refl))))
      ]

-- What dispatching promises about the publisher and the rows that are marked as sent, by the rows that the claim
-- left.
pub record IsDispatched (publish : Envelope → Result Receipt Failure) (now : ℕ)
    (claimed : Result (Option Lease) Failure × List Row) (rows : List Row)
    (answer : Result Bool Failure) (after : List Row) : Type 0 where
  pub between : List Row
  pub kept : Pointwise KeepsMark rows between
  pub delivered :
      Pointwise KeepsMark between after
      ⊎ ((l : Lease) × (r : Receipt) × (claimed ≡ (ok (some l), between))
          × (publish l.event ≡ ok r)
          × (r.durable ≡ true)
          × (r.event_id ≡ l.event.id)
          × Pointwise (MayMark l now) between after)
  pub marked : answer ≡ ok true → suc (count_sent rows) ≤ count_sent after
  pub idle : answer ≡ ok false → count_sent after ≡ count_sent rows

module _ (b : Backend) where
  claim-kept :
      (token : Text) (run : Run) (rows : List Row)
      → Pointwise KeepsMark rows (claim b token run rows).1
  unfolding claim
  claim-kept token run rows = elim (Result-cases (parse (string token))) [
    | inl (a, h) ↦
        let body = claim_rows b.id_less b.decode token run.first_now run.now in
        let run_body : transacted run.fate body rows ≡ claim b token run rows = ground arith in
        subst (λ (x : Result (Option Lease) Failure × List Row). Pointwise KeepsMark rows x.1)
          run_body
          (transacted-keeps (Pointwise KeepsMark rows) run.fate body rows (kept_refl rows)
            (claim_rows-kept b.id_less b.decode token run.first_now run.now rows))
    | inr (f, h) ↦
        let there : rows ≡ (claim b token run rows).1 = ground arith in
        subst (Pointwise KeepsMark rows) there (kept_refl rows)
  ]

  release-kept :
      (l : Lease) (run : Run) (rows : List Row)
      → Pointwise KeepsMark rows (finish_lease b l false run rows).1
  unfolding finish_lease finish_rows
  release-kept l run rows =
      transacted-keeps (Pointwise KeepsMark rows) run.fate
        (finish_rows l.event.id l.token false run.now) rows (kept_refl rows)
        (kept-map _ rows (finish_kept l.event.id l.token run.now))

  ack-marks :
      (l : Lease) (run : Run) (rows : List Row)
      → Pointwise (MayMark l run.now) rows (finish_lease b l true run rows).1
  unfolding finish_lease finish_rows
  ack-marks l run rows =
      transacted-keeps (Pointwise (MayMark l run.now) rows) run.fate
        (finish_rows l.event.id l.token true run.now) rows (unmarked l run.now rows)
        (marked-map l run.now rows)

  finish_rows-grows :
      (id token : Text) (now : ℕ) (rows : List Row)
      → (finish_rows id token true now rows).0 ≡ ok tt
      → suc (count_sent rows) ≤ count_sent (finish_rows id token true now rows).1
  unfolding finish_rows
  finish_rows-grows id token now rows h = elim (Bool-cases (any (holds id token now) rows)) [
    | inl e ↦ ground (arith, finished-grows id token now rows)
    | inr e ↦ absurd (ground arith)
  ]

  -- An acknowledged lease has its row marked as sent.
  ack-grows :
      (l : Lease) (run : Run) (rows : List Row)
      → (finish_lease b l true run rows).0 ≡ ok tt
      → suc (count_sent rows) ≤ count_sent (finish_lease b l true run rows).1
  unfolding finish_lease
  ack-grows l run rows h =
      let body = finish_rows l.event.id l.token true run.now in
      let done = transacted-done run.fate body rows tt h in
      subst (λ (x : Result (Unit {0}) Failure × List Row). suc (count_sent rows) ≤ count_sent x.1)
        (sym done)
        (finish_rows-grows l.event.id l.token run.now rows
          (ap (λ (x : Result (Unit {0}) Failure × List Row). x.0) (sym done) ∙ h))

  unchanged-IsDispatched :
      (publish : Envelope → Result Receipt Failure) (now : ℕ)
      (claimed : Result (Option Lease) Failure × List Row) (rows after : List Row) (f : Failure)
      → Pointwise KeepsMark rows after
      → IsDispatched publish now claimed rows (err f) after
  unchanged-IsDispatched publish now claimed rows after f h = record {
    between = rows;
    kept = kept_refl rows;
    delivered = inl h;
    marked = λ k. absurd (ground arith);
    idle = λ k. absurd (ground arith);
  }

  delivered_receipt :
      (e : Envelope) (r : Result Receipt Failure)
      → is_delivered e r ≡ true
      → (a : Receipt) × (r ≡ ok a) × (a.durable ≡ true) × (a.event_id ≡ e.id)
  delivered_receipt e (ok a) h =
      let parts = and_parts a.durable (same a.event_id e.id) h in
      (a, refl, parts.0, (same_iff a.event_id e.id).0 parts.1)
  delivered_receipt e (err f) h = absurd (ground arith)

  acked-IsDispatched :
      (publish : Envelope → Result Receipt Failure) (now : ℕ)
      (claimed : Result (Option Lease) Failure × List Row) (rows : List Row) (l : Lease)
      (done : Result (Unit {0}) Failure × List Row)
      → claimed ≡ (ok (some l), rows)
      → Pointwise (MayMark l now) rows done.1
      → is_delivered l.event (publish l.event) ≡ true
      → (done.0 ≡ ok tt → suc (count_sent rows) ≤ count_sent done.1)
      → IsDispatched publish now claimed rows (acked b done).0 (acked b done).1
  acked-IsDispatched publish now claimed rows l (ok u, after) c m h k = record {
    between = rows;
    kept = kept_refl rows;
    delivered =
        let d = delivered_receipt l.event (publish l.event) h in inr (l, d.0, c, d.1, d.2, d.3, m);
    marked = λ e. k refl;
    idle = λ e. absurd (ground arith);
  }
  acked-IsDispatched publish now claimed rows l (err f, after) c m h k = record {
    between = rows;
    kept = kept_refl rows;
    delivered =
        let d = delivered_receipt l.event (publish l.event) h in inr (l, d.0, c, d.1, d.2, d.3, m);
    marked = λ e. absurd (ground arith);
    idle = λ e. absurd (ground arith);
  }

  released-IsDispatched :
      (publish : Envelope → Result Receipt Failure) (now : ℕ)
      (claimed : Result (Option Lease) Failure × List Row) (rows : List Row)
      (r : Result Receipt Failure) (done : Result (Unit {0}) Failure × List Row)
      → Pointwise KeepsMark rows done.1
      → IsDispatched publish now claimed rows
          (released_lease b r done).0
          (released_lease b r done).1
  released-IsDispatched publish now claimed rows r (ok u, after) h =
      unchanged-IsDispatched publish now claimed rows after (refused_receipt b r) h
  released-IsDispatched publish now claimed rows r (err f, after) h =
      unchanged-IsDispatched publish now claimed rows after f h

  settle_lease-IsDispatched :
      (publish : Envelope → Result Receipt Failure)
      (claimed : Result (Option Lease) Failure × List Row) (l : Lease) (run : Run) (rows : List Row)
      → claimed ≡ (ok (some l), rows)
      → IsDispatched publish run.now claimed rows
          (settle_lease b l (publish l.event) run rows).0
          (settle_lease b l (publish l.event) run rows).1
  unfolding settle_lease
  settle_lease-IsDispatched publish claimed l run rows c =
      let Goal : Result Bool Failure × List Row → Type 0 =
        λ x. IsDispatched publish run.now claimed rows x.0 x.1 in
      elim (Bool-cases (is_delivered l.event (publish l.event))) [
        | inl e ↦
            let there : acked b (finish_lease b l true run rows)
                ≡ settle_lease b l (publish l.event) run rows =
              ground arith in
            subst Goal there (
              acked-IsDispatched publish run.now claimed rows l (finish_lease b l true run rows) c
                (ack-marks l run rows) e (ack-grows l run rows))
        | inr e ↦
            let there : released_lease b (publish l.event) (finish_lease b l false run rows)
                ≡ settle_lease b l (publish l.event) run rows =
              ground arith in
            subst Goal there (
              released-IsDispatched publish run.now claimed rows (publish l.event)
                (finish_lease b l false run rows) (release-kept l run rows))
      ]

  -- What is promised from the rows that the claim left is promised from those before it.
  before-IsDispatched :
      (publish : Envelope → Result Receipt Failure) (now : ℕ)
      (claimed : Result (Option Lease) Failure × List Row) (rows rows' : List Row)
      (answer : Result Bool Failure) (after : List Row)
      → Pointwise KeepsMark rows rows'
      → IsDispatched publish now claimed rows' answer after
      → IsDispatched publish now claimed rows answer after
  before-IsDispatched publish now claimed rows rows' answer after h d =
      let n = kept-count_sent rows rows' h in
      record {
        between = d.between;
        kept = kept_trans rows rows' d.between h d.kept;
        delivered = d.delivered;
        marked = λ m. ground (arith, d.marked m);
        idle = λ m. d.idle m ∙ n;
      }

  dispatched-IsDispatched :
      (publish : Envelope → Result Receipt Failure) (run : Run) (rows : List Row)
      (p : Result (Option Lease) Failure × List Row)
      → Pointwise KeepsMark rows p.1
      → IsDispatched publish run.now p rows
          (dispatched b publish run p).0
          (dispatched b publish run p).1
  dispatched-IsDispatched publish run rows (err f, after) h =
      unchanged-IsDispatched publish run.now (err f, after) rows after f h
  dispatched-IsDispatched publish run rows (ok none, after) h = record {
    between = rows;
    kept = kept_refl rows;
    delivered = inl h;
    marked = λ k. absurd (ground arith);
    idle = λ k. kept-count_sent rows after h;
  }
  dispatched-IsDispatched publish run rows (ok (some l), after) h =
      let settled_rows = settle_lease b l (publish l.event) run after in
      before-IsDispatched publish run.now (ok (some l), after) rows after settled_rows.0
        settled_rows.1 h (settle_lease-IsDispatched publish (ok (some l), after) l run after refl)

  -- The claim of a dispatch marks no row as sent, and after it a row is marked only if the claim gave a lease,
  -- the publisher answered a durable receipt with the identifier of the event of that lease, and the row is the
  -- pending one of that event with the token of the lease, which has not expired. If dispatching answers true
  -- a row was marked as sent, and if it answers false none was. This holds whichever way its two transactions
  -- end.
  pub dispatch-IsDispatched :
      (aborted : Bool) (token : Text) (publish : Envelope → Result Receipt Failure)
      (first second : Run) (rows : List Row)
      → IsDispatched publish second.now
          (claim b token first rows)
          rows
          (dispatch b aborted token publish first second rows).0
          (dispatch b aborted token publish first second rows).1
  unfolding dispatch
  dispatch-IsDispatched true token publish first second rows =
      unchanged-IsDispatched publish second.now (claim b token first rows) rows rows
        dispatch_canceled (kept_refl rows)
  dispatch-IsDispatched false token publish first second rows =
      dispatched-IsDispatched publish second rows (claim b token first rows)
        (claim-kept token first rows)
