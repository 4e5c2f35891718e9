-- ===== src/Jetstream/Acknowledging.antt =====
-- What `transfer` promises (src/shared/events/jetstream/broker.ts).
use modular_hx_fastapi.Common.{
  Bool, Bool-cases, Option-cases, Text, [], arith, codes, false, inl, inr, refl, subst, true, ◌++◌,
  ◌==◌, ◌||◌, ◌∙◌, ◌≡◌, ◌≢◌, ◌⊎◌,
}
use modular_hx_fastapi.Errors.{Failure, Result, err, ok}
use modular_hx_fastapi.Events.{Envelope, Receipt}
use modular_hx_fastapi.Jetstream.Links.{
  Link, Message, Sent, Thrown, app, broker_unavailable, continue, on_reply, operate, request,
  settled_operation, thrown_failure,
}
use modular_hx_fastapi.Jetstream.Brokers.{
  BrokerConfig, Platform, consumer_path, hand_over, on_message, reply_of, transfer,
}
use modular_hx_fastapi.Jetstream.Transferring.{
  IsAcked, IsHanded, IsRequested, hand_over-IsHanded, on_reply-IsRequested, sent_after,
}

module _ (p : Platform) (c : BrokerConfig) {S : Type 0}
    (sink : Envelope → S → Result Receipt Thrown × S) where
  abbrev pub next_of : Sent
  next_of = record {
    subject = codes "$JS.API.CONSUMER.MSG.NEXT." ++ consumer_path p c;
    bytes = codes "{\"batch\":1,\"no_wait\":true}";
    headers = [];
  }

  -- The message was asked for and answered, and then acknowledged.
  pub record IsMoved (l after : Link S) : Type 0 where
    pub message : Message
    pub reply : Text
    pub asked : Link S
    pub untouched : asked.store ≡ l.store
    pub sent : asked.sent ≡ sent_after l next_of
    pub acked : IsAcked p sink message reply asked after

  -- Without an acknowledgement at most the question was sent; the answer true needs an acknowledgement, and the
  -- answer false leaves the sink alone.
  pub record IsTransferred (l : Link S) (answer : Result Bool Failure) (after : Link S)
      : Type 0 where
    pub silent : (after.sent ≡ l.sent) ⊎ ((after.sent ≡ sent_after l next_of) ⊎ IsMoved l after)
    pub moved : answer ≡ ok true → IsMoved l after
    pub idle : answer ≡ ok false → (after.store ≡ l.store) × (after.sent ≡ sent_after l next_of)

  asking :
      (l after : Link S)
      → (after.sent ≡ l.sent) ⊎ (after.sent ≡ sent_after l next_of)
      → (after.sent ≡ l.sent) ⊎ ((after.sent ≡ sent_after l next_of) ⊎ IsMoved l after)
  asking l after (inl h) = inl h
  asking l after (inr h) = inr (inl h)

  failed-IsTransferred :
      (l after : Link S) (f : Failure)
      → (after.sent ≡ l.sent) ⊎ (after.sent ≡ sent_after l next_of)
      → IsTransferred l (err f) after
  failed-IsTransferred l after f h = record {
    silent = asking l after h;
    moved = λ k. absurd (ground arith);
    idle = λ k. absurd (ground arith);
  }

  handed-IsTransferred :
      (aborted : Bool) (l asked : Link S) (m : Message) (reply : Text)
      (q : Result Bool Thrown × Link S)
      → asked.store ≡ l.store
      → asked.sent ≡ sent_after l next_of
      → IsHanded p sink m reply asked q
      → IsTransferred l (settled_operation aborted q).0 (settled_operation aborted q).1
  handed-IsTransferred aborted l asked m reply (a, after) s h i =
      parts a (elim i.acked [ inl e ↦ inr (inl (e ∙ h)) | inr k ↦ inr (inr (made k)) ])
        (λ e. made (i.moved e)) i.decided
    where
      made : IsAcked p sink m reply asked after → IsMoved l after
      made k = record {
        message = m;
        reply = reply;
        asked = asked;
        untouched = s;
        sent = h;
        acked = k;
      }

      parts :
          (a : Result Bool Thrown)
          → (after.sent ≡ l.sent) ⊎ ((after.sent ≡ sent_after l next_of) ⊎ IsMoved l after)
          → (a ≡ ok true → IsMoved l after)
          → a ≢ ok false
          → IsTransferred l
              (settled_operation aborted (a, after)).0
              (settled_operation aborted (a, after)).1
      parts (ok true) silent moved decided = record {
        silent = silent;
        moved = λ k. moved refl;
        idle = λ k. absurd (ground arith);
      }
      parts (ok false) silent moved decided = absurd (decided refl)
      parts (err t) silent moved decided = record {
        silent = silent;
        moved = λ k. absurd (ground arith);
        idle = λ k. absurd (ground arith);
      }

  -- After the question is answered.
  asked-IsTransferred :
      (aborted : Bool) (l : Link S) (q : Result Message Thrown × Link S)
      → IsRequested next_of l q
      → IsTransferred l
          (settled_operation aborted (continue q (on_message p c sink))).0
          (settled_operation aborted (continue q (on_message p c sink))).1
  asked-IsTransferred aborted l (err t, asked) i =
      failed-IsTransferred l asked (thrown_failure aborted t) i.sent
  asked-IsTransferred aborted l (ok m, asked) i =
      let answered_sent = i.answer m refl in
      elim (Bool-cases (m.code == 404 || m.code == 408)) [
        | inl e ↦
            let there : (ok false, asked) ≡ on_message p c sink m asked = ground arith in
            subst
              (λ x. IsTransferred l (settled_operation aborted x).0 (settled_operation aborted x).1)
              there
              (record {
                silent = inr (inl answered_sent);
                moved = λ k. absurd (ground arith);
                idle = λ k. (i.store, answered_sent);
              })
        | inr e ↦ elim (Option-cases (reply_of m.reply)) [
          | inl n ↦
              let there : (err (app broker_unavailable), asked) ≡ on_message p c sink m asked =
                ground arith in
              subst
                (λ x.
                  IsTransferred l (settled_operation aborted x).0 (settled_operation aborted x).1)
                there (failed-IsTransferred l asked _ (inr answered_sent))
          | inr (reply, n) ↦
              let there : hand_over p c sink m reply asked ≡ on_message p c sink m asked =
                ground arith in
              subst
                (λ x.
                  IsTransferred l (settled_operation aborted x).0 (settled_operation aborted x).1)
                there
                (handed-IsTransferred aborted l asked m reply (hand_over p c sink m reply asked)
                  i.store answered_sent (hand_over-IsHanded p sink c m reply asked))
        ]
      ]

  -- Transferring acknowledges a message only after the sink has answered a durable receipt for the event that it
  -- decodes to; without that at most the question for a message was sent. If it answers true the message was
  -- acknowledged, and if it answers false the sink was left alone. Requests may be refused, lost or answered.
  pub transfer-IsTransferred :
      (aborted : Bool) (l : Link S)
      → IsTransferred l (transfer p c aborted sink l).0 (transfer p c aborted sink l).1
  unfolding transfer operate request
  transfer-IsTransferred aborted l =
      asked-IsTransferred aborted l (on_reply next_of l.replies l)
        (on_reply-IsRequested next_of l.replies l)
