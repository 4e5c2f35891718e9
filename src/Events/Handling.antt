-- ===== src/Events/Handling.antt =====
-- The mailbox handles an event at most once (src/shared/events/postgres/store.ts).
use modular_hx_fastapi.Common.{
  Bool, Bool-cases, List, Option-cases, Text, [], ap, arith, false, if◌then◌else◌, inl, inr, refl,
  same, some, subst, sym, true, ℕ, ◌&&◌, ◌+◌, ◌∙◌, ◌≡◌, ◌≤◌,
}
use modular_hx_fastapi.Errors.{Failure, Result, Result-cases, err, ok}
use modular_hx_fastapi.Events.Envelopes.{Envelope, Json, decode_envelope}
use modular_hx_fastapi.Events.Outbox.{
  Row, enqueue, first_candidate, is_candidate, new_row, transacted, update_row,
}
use modular_hx_fastapi.Events.Delivery.{
  Backend, Run, consume, consume_body, consumed, handled_row, publish_mail, received,
}
use modular_hx_fastapi.Events.Tables.{
  IsRow, IsTable, find_row, insert_row-IsTable, is_there, update_row-IsTable,
}
use modular_hx_fastapi.Events.Mailbox.{
  Every, count_processed, count_processed-insert_row, count_processed-once,
  count_processed-update_row, find_row-Every, insert_row-Every, update_row-Every,
}
use modular_hx_fastapi.Events.Claims.{find_row-IsRow, first_candidate-IsFound, transacted-keeps}
use modular_hx_fastapi.Events.Decoding.{IsJson, decode_envelope-again}

module _ (b : Backend) {D : Type 0} (handler : Envelope → D → Result (Unit {0}) Failure × D) where
  -- An operation of an instance on the mailbox; an envelope is made by decoding a text.
  pub data MailOperation : Type 0 where
    publishes : (raw : Text) (e : Envelope) → b.decode raw ≡ ok e → Run → MailOperation
    consumes : Run → MailOperation

  unfoldable pub perform_mail : MailOperation → List Row × D → List Row × D
  perform_mail (publishes raw e h run) (rows, d) = ((publish_mail b e run rows).1, d)
  perform_mail (consumes run) s = (consume b handler run s).1

  -- The mailbox and the data of the handler that operations lead to.
  pub data MailReached (start : D) : List Row × D → Type 0 where
    mail_created : MailReached start ([], start)
    mail_performed :
        (o : MailOperation) {s : List Row × D}
        → MailReached start s
        → MailReached start (perform_mail o s)

  -- The stored text of a row is an event with the identifier of the row, and the row has no lease.
  pub record IsMailRow (r : Row) : Type 0 where
    pub unleased : is_there r.lease ≡ false
    pub readable : (e : Envelope) → b.decode r.envelope ≡ ok e → e.id ≡ r.event_id

  -- What an observer of the data sees of an event.
  module _ (seen : Text → D → ℕ) where
    pub record IsMail (s : List Row × D) : Type 0 where
      pub table : IsTable s.0
      pub rows : Every IsMailRow s.0
      pub exact : (id : Text) → seen id s.1 ≡ count_processed id s.0

    -- The handler's effect is seen once if it succeeds.
    abbrev pub IsHandler : Type 0
    IsHandler =
        (e : Envelope) (d : D) (id : Text)
        → (handler e d).0 ≡ ok tt
        → seen id (handler e d).1 ≡ seen id d + (if same e.id id then 1 else 0)

    module _
        (stable : (raw : Text) (e : Envelope) → b.decode raw ≡ ok e → b.decode e.raw ≡ ok e) where
      new_row-IsMailRow :
          (raw : Text) (e : Envelope) (now : ℕ)
          → b.decode raw ≡ ok e
          → IsMailRow (new_row e.id e.raw now)
      new_row-IsMailRow raw e now h = record {
        unleased = refl;
        readable = λ f k. let again = stable raw e h in ground arith;
      }

      enqueued-IsMail :
          (raw : Text) (e : Envelope) (now : ℕ) (rows : List Row) (d : D)
          → b.decode raw ≡ ok e
          → IsMail (rows, d)
          → IsMail ((enqueue b.same_json e now rows).1, d)
      unfolding enqueue
      enqueued-IsMail raw e now rows d h m = record {
        table = insert_row-IsTable b.same_json e.id e.raw now rows m.table;
        rows =
            insert_row-Every IsMailRow b.same_json e.id e.raw now rows
              (new_row-IsMailRow raw e now h) m.rows;
        exact =
            λ id. m.exact id ∙ sym (count_processed-insert_row id b.same_json e.id e.raw now rows);
      }

    received-rows :
        (e : Envelope) (p : Result (Unit {0}) Failure × List Row) → (received b e p).1 ≡ p.1
    received-rows e (ok u, rows) = refl
    received-rows e (err f, rows) = refl

    module _
        (stable : (raw : Text) (e : Envelope) → b.decode raw ≡ ok e → b.decode e.raw ≡ ok e) where
      published-IsMail :
          (raw : Text) (e : Envelope) (run : Run) (rows : List Row) (d : D)
          → b.decode raw ≡ ok e
          → IsMail (rows, d)
          → IsMail ((publish_mail b e run rows).1, d)
      unfolding publish_mail
      published-IsMail raw e run rows d h m =
          let body = enqueue b.same_json e run.now in
          subst (λ (x : List Row). IsMail (x, d))
            (sym (received-rows e (transacted run.fate body rows)))
            (transacted-keeps (λ (x : List Row). IsMail (x, d)) run.fate body rows m
              (enqueued-IsMail stable raw e run.now rows d h m))

    handled_row-IsRow :
        (success : Bool) (now first_now : ℕ) (r : Row)
        → is_candidate first_now r ≡ true
        → IsRow r
        → IsMailRow r
        → IsRow (handled_row b success now r)
    handled_row-IsRow success now first_now r c i m = record {
      bounded = ground arith;
      paired = i.paired;
      idle = λ h. m.unleased;
    }

    handled_row-IsMailRow :
        (success : Bool) (now : ℕ) (r : Row) → IsMailRow r → IsMailRow (handled_row b success now r)
    handled_row-IsMailRow success now r m = record { unleased = m.unleased; readable = m.readable }

    -- Handling a candidate keeps the mailbox if the data shows it.
    handled-IsMail :
        (success : Bool) (first_now now : ℕ) (rows : List Row) (d d' : D) (r : Row) (e : Envelope)
        → first_candidate b.id_less first_now rows ≡ some r
        → b.decode r.envelope ≡ ok e
        → ((id : Text) → seen id d' ≡ seen id d + (if same e.id id && success then 1 else 0))
        → IsMail (rows, d)
        → IsMail (update_row e.id (handled_row b success now) rows, d')
    handled-IsMail success first_now now rows d d' r e f k effect m =
        let found = first_candidate-IsFound b.id_less first_now rows r m.table f in
        let mail_row = find_row-Every IsMailRow r.event_id rows r m.rows found.0 in
        let same_id : e.id ≡ r.event_id = mail_row.readable e k in
        let there : find_row e.id rows ≡ some r =
          ap (λ (x : Text). find_row x rows) same_id ∙ found.0 in
        let row = find_row-IsRow r.event_id rows r m.table found.0 in
        record {
          table =
              update_row-IsTable e.id (handled_row b success now) rows r (λ x. refl) there
                (handled_row-IsRow success now first_now r found.1 row mail_row) m.table;
          rows =
              update_row-Every IsMailRow e.id (handled_row b success now) rows
                (handled_row-IsMailRow success now) m.rows;
          exact = λ id.
              let counted =
                count_processed-update_row b id e.id success now rows r m.table there
                  (ground (arith, found.1)) in
              let effected = effect id in
              let before = m.exact id in
              effected
              ∙ ap (λ (x : ℕ). x + (if same e.id id && success then 1 else 0)) before
              ∙ ap (λ (x : Text). count_processed id rows + (if same x id && success then 1 else 0))
                  same_id
              ∙ sym counted;
        }

    unseen :
        (id : Text) (e : Envelope) (d : D)
        → seen id d ≡ seen id d + (if same e.id id && false then 1 else 0)
    unseen id e d = elim (Bool-cases (same e.id id)) [ inl h ↦ ground arith | inr h ↦ ground arith ]

    once :
        (id : Text) (e : Envelope) (d : D)
        → seen id d + (if same e.id id then 1 else 0)
          ≡ seen id d + (if same e.id id && true then 1 else 0)
    once id e d = elim (Bool-cases (same e.id id)) [ inl h ↦ ground arith | inr h ↦ ground arith ]

    answered-IsMail :
        (first_now now : ℕ) (rows : List Row) (d : D) (r : Row) (e : Envelope)
        (p : Result (Unit {0}) Failure × D)
        → first_candidate b.id_less first_now rows ≡ some r
        → b.decode r.envelope ≡ ok e
        → ((id : Text) → p.0 ≡ ok tt → seen id p.1 ≡ seen id d + (if same e.id id then 1 else 0))
        → IsMail (rows, d)
        → IsMail (consumed b handler now e.id rows d p).1
    answered-IsMail first_now now rows d r e (ok u, d') f k effect m =
        handled-IsMail true first_now now rows d d' r e f k (λ id. effect id refl ∙ once id e d) m
    answered-IsMail first_now now rows d r e (err g, d') f k effect m =
        handled-IsMail false first_now now rows d d r e f k (λ id. unseen id e d) m

    consumed-IsMail :
        (first_now now : ℕ) (rows : List Row) (d : D)
        → IsHandler
        → IsMail (rows, d)
        → IsMail (consume_body b handler first_now now (rows, d)).1
    unfolding consume_body
    consumed-IsMail first_now now rows d k m =
        elim (Option-cases (first_candidate b.id_less first_now rows)) [
          | inl h ↦
              let there : (rows, d) ≡ (consume_body b handler first_now now (rows, d)).1 =
                ground arith in
              subst IsMail there m
          | inr (r, h) ↦ elim (Result-cases (b.decode r.envelope)) [
            | inr (f, g) ↦
                let there : (rows, d) ≡ (consume_body b handler first_now now (rows, d)).1 =
                  ground arith in
                subst IsMail there m
            | inl (e, g) ↦
                let there : (consumed b handler now e.id rows d (handler e d)).1
                    ≡ (consume_body b handler first_now now (rows, d)).1 =
                  ground arith in
                subst IsMail there (
                  answered-IsMail first_now now rows d r e (handler e d) h g
                    (λ id done. k e d id done) m)
          ]
        ]

    handled_once_step :
        (o : MailOperation) (s : List Row × D)
        → ((raw : Text) (e : Envelope) → b.decode raw ≡ ok e → b.decode e.raw ≡ ok e)
        → IsHandler
        → IsMail s
        → IsMail (perform_mail o s)
    unfolding perform_mail consume
    handled_once_step (publishes raw e h run) (rows, d) stable k m =
        published-IsMail stable raw e run rows d h m
    handled_once_step (consumes run) (rows, d) stable k m =
        transacted-keeps IsMail run.fate (consume_body b handler run.first_now run.now) (rows, d) m
          (consumed-IsMail run.first_now run.now rows d k m)

    reached-IsMail :
        (start : D) (s : List Row × D)
        → ((raw : Text) (e : Envelope) → b.decode raw ≡ ok e → b.decode e.raw ≡ ok e)
        → IsHandler
        → ((id : Text) → seen id start ≡ 0)
        → MailReached start s
        → IsMail s
    unfolding count_processed
    reached-IsMail start _ stable k z mail_created = record { table = tt; rows = tt; exact = z }
    reached-IsMail start _ stable k z (mail_performed o {s} r) =
        handled_once_step o s stable k (reached-IsMail start s stable k z r)

    stable_of :
        (j : Json)
        → ((raw : Text) → b.decode raw ≡ decode_envelope j raw)
        → IsJson j
        → (raw : Text) (e : Envelope) → b.decode raw ≡ ok e
        → b.decode e.raw ≡ ok e
    stable_of j decodes json raw e h =
        decodes e.raw ∙ decode_envelope-again j raw e json (sym (decodes raw) ∙ h)

    -- Publishing to and consuming from the mailbox, in any order, with any ends of their transactions: the
    -- effect of the handler is seen for an event once if its row is processed and else not, so never twice,
    -- if the handler's effect on success is seen once, stored texts are decoded as envelopes, and the JSON of the
    -- platform gives back what was written.
    pub handled_at_most_once :
        (j : Json) (start : D) (s : List Row × D)
        → ((raw : Text) → b.decode raw ≡ decode_envelope j raw)
        → IsJson j
        → IsHandler
        → ((id : Text) → seen id start ≡ 0)
        → MailReached start s
        → (id : Text) → (seen id s.1 ≡ count_processed id s.0) × (seen id s.1 ≤ 1)
    handled_at_most_once j start s decodes json k z r id =
        let m = reached-IsMail start s (stable_of j decodes json) k z r in
        (m.exact id, ground (arith, m.exact id, count_processed-once id s.0 m.table))
