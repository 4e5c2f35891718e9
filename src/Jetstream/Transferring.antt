-- ===== src/Jetstream/Transferring.antt =====
-- A message is acknowledged only after the sink has it (src/shared/events/jetstream/broker.ts).
use modular_hx_fastapi.Common.{
  Bool, Bool-cases, List, Text, [], and_parts, arith, false, inl, inr, length, ltb, refl, same,
  same_iff, subst, true, ◌&&◌, ◌++◌, ◌∷◌, ◌≡◌, ◌≢◌, ◌⊎◌,
}
use modular_hx_fastapi.Errors.{Result, Result-cases, err, named, ok}
use modular_hx_fastapi.Jetstream.Links.{
  Link, Message, Reply, Sent, Thrown, app, broker_unavailable, continue, give, lost, max_message,
  on_reply, refused, replied, request,
}
use modular_hx_fastapi.Events.{Envelope, Receipt, acked}
use modular_hx_fastapi.Jetstream.Brokers.{BrokerConfig, Platform, ack_text, hand_over}

abbrev pub sent_after : {S : Type 0} → Link S → Sent → List Sent
sent_after l s = l.sent ++ (s ∷ [])

-- A request leaves the tables, sends at most itself, and is sent if it is answered.
pub record IsRequested {S : Type 0} (s : Sent) (l : Link S) (q : Result Message Thrown × Link S)
    : Type 0 where
  pub store : q.1.store ≡ l.store
  pub sent : (q.1.sent ≡ l.sent) ⊎ (q.1.sent ≡ sent_after l s)
  pub answer : (m : Message) → q.0 ≡ ok m → q.1.sent ≡ sent_after l s

pub on_reply-IsRequested :
    {S : Type 0} (s : Sent) (rs : List Reply) (l : Link S) → IsRequested s l (on_reply s rs l)
on_reply-IsRequested s [] l = record {
  store = refl;
  sent = inr refl;
  answer = λ m h. absurd (ground arith);
}
on_reply-IsRequested s (refused ∷ rs) l = record {
  store = refl;
  sent = inl refl;
  answer = λ m h. absurd (ground arith);
}
on_reply-IsRequested s (lost ∷ rs) l = record {
  store = refl;
  sent = inr refl;
  answer = λ m h. absurd (ground arith);
}
on_reply-IsRequested s (replied m ∷ rs) l =
    let after = record l { replies = rs; sent = sent_after l s } in
    elim (Bool-cases (ltb max_message (length m.bytes))) [
      | inl e ↦
          let there : (err (app broker_unavailable), after) ≡ on_reply s (replied m ∷ rs) l =
            ground arith in
          subst (IsRequested s l) there
            (record { store = refl; sent = inr refl; answer = λ n h. refl })
      | inr e ↦
          let there : (ok m, after) ≡ on_reply s (replied m ∷ rs) l = ground arith in
          subst (IsRequested s l) there
            (record { store = refl; sent = inr refl; answer = λ n h. refl })
    ]

module _ (p : Platform) {S : Type 0} (sink : Envelope → S → Result Receipt Thrown × S) where
  abbrev ack_of : Text → Sent
  ack_of reply = record { subject = reply; bytes = ack_text; headers = [] }

  -- The acknowledgement of a message was sent: the sink had answered a durable receipt for its event.
  pub record IsAcked (m : Message) (reply : Text) (before after : Link S) : Type 0 where
    pub event : Envelope
    pub receipt : Receipt
    pub decoded : p.decode m.bytes ≡ ok event
    pub accepted : (sink event before.store).0 ≡ ok receipt
    pub durable : receipt.durable ≡ true
    pub named : receipt.event_id ≡ event.id
    pub store : after.store ≡ (sink event before.store).1
    pub sent : after.sent ≡ sent_after before (ack_of reply)

  -- What handing a message over leaves: without the acknowledgement nothing was sent.
  pub record IsHanded (m : Message) (reply : Text) (l : Link S) (q : Result Bool Thrown × Link S)
      : Type 0 where
    pub acked : (q.1.sent ≡ l.sent) ⊎ IsAcked m reply l q.1
    pub moved : q.0 ≡ ok true → IsAcked m reply l q.1
    pub decided : q.0 ≢ ok false

  silent-IsHanded :
      (m : Message) (reply : Text) (l after : Link S) (t : Thrown)
      → after.sent ≡ l.sent
      → IsHanded m reply l (err t, after)
  silent-IsHanded m reply l after t h = record {
    acked = inl h;
    moved = λ k. absurd (ground arith);
    decided = λ k. ground arith;
  }

  acked-IsHanded :
      (m : Message) (reply : Text) (l : Link S) (event : Envelope) (receipt : Receipt)
      (q : Result Message Thrown × Link S)
      → p.decode m.bytes ≡ ok event
      → (sink event l.store).0 ≡ ok receipt
      → receipt.durable && same receipt.event_id event.id ≡ true
      → IsRequested (ack_of reply) (record l { store = (sink event l.store).1 }) q
      → IsHanded m reply l (continue q (λ acked. give true))
  acked-IsHanded m reply l event receipt (a, after) d k good r =
      let (durable, named) = and_parts receipt.durable (same receipt.event_id event.id) good in
      let acked : after.sent ≡ sent_after l (ack_of reply) → IsAcked m reply l after = λ h. record {
        event = event;
        receipt = receipt;
        decoded = d;
        accepted = k;
        durable = durable;
        named = (same_iff receipt.event_id event.id).0 named;
        store = r.store;
        sent = h;
      } in
      answered_parts a r.answer acked (elim r.sent [ inl h ↦ inl h | inr h ↦ inr (acked h) ])
    where
      answered_parts :
          (a : Result Message Thrown)
          → ((n : Message) → a ≡ ok n → after.sent ≡ sent_after l (ack_of reply))
          → (after.sent ≡ sent_after l (ack_of reply) → IsAcked m reply l after)
          → (after.sent ≡ l.sent) ⊎ IsAcked m reply l after
          → IsHanded m reply l (continue (a, after) (λ acked. give true))
      answered_parts (ok n) answer acked either = record {
        acked = either;
        moved = λ k. acked (answer n refl);
        decided = λ k. ground arith;
      }
      answered_parts (err t) answer acked either = record {
        acked = either;
        moved = λ k. absurd (ground arith);
        decided = λ k. ground arith;
      }

  pub hand_over-IsHanded :
      (c : BrokerConfig) (m : Message) (reply : Text) (l : Link S)
      → IsHanded m reply l (hand_over p c sink m reply l)
  unfolding hand_over request
  hand_over-IsHanded c m reply l = elim (Result-cases (p.decode m.bytes)) [
    | inr (f, d) ↦
        let there : (err (app f), l) ≡ hand_over p c sink m reply l = ground arith in
        subst (IsHanded m reply l) there (silent-IsHanded m reply l l (app f) refl)
    | inl (event, d) ↦
        let stored = record l { store = (sink event l.store).1 } in
        elim (Result-cases (sink event l.store).0) [
          | inr (t, k) ↦
              let there : (err t, stored) ≡ hand_over p c sink m reply l = ground arith in
              subst (IsHanded m reply l) there (silent-IsHanded m reply l stored t refl)
          | inl (receipt, k) ↦
              elim (Bool-cases (receipt.durable && same receipt.event_id event.id)) [
                | inr bad ↦
                    let there : (err (app broker_unavailable), stored)
                        ≡ hand_over p c sink m reply l =
                      ground arith in
                    subst (IsHanded m reply l) there
                      (silent-IsHanded m reply l stored (app broker_unavailable) refl)
                | inl good ↦
                    let there : continue (on_reply (ack_of reply) l.replies stored)
                          (λ acked. give true)
                        ≡ hand_over p c sink m reply l =
                      ground arith in
                    subst (IsHanded m reply l) there (
                      acked-IsHanded m reply l event receipt
                        (on_reply (ack_of reply) l.replies stored) d k good
                        (on_reply-IsRequested (ack_of reply) l.replies stored))
              ]
        ]
  ]
