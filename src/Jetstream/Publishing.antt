-- ===== src/Jetstream/Publishing.antt =====
-- What a receipt of `publish` says (src/shared/events/jetstream/broker.ts).
use modular_hx_fastapi.Common.{
  Bool, Bool-cases, Option, Text, Value, [], ap, arith, codes, end, false, if◌then◌else◌, inl, inr,
  none, object, prop, refl, some, string, subst, sym, true, ◌++◌, ◌∙◌, ◌∷◌, ◌≡◌, ◌⊎◌,
}
use modular_hx_fastapi.Errors.{Failure, Result, err, named, ok}
use modular_hx_fastapi.Jetstream.Links.{
  Link, Message, Sent, Thrown, app, broker_unavailable, check, continue, give, operate, present,
  request, settled_operation, unexpected,
}
use modular_hx_fastapi.Events.{Envelope, Receipt, is_nullish, text_of}
use modular_hx_fastapi.Jetstream.Brokers.{
  BrokerConfig, Platform, api, check_stored, good_ack, id_reused, is_container, is_truthy, property,
  publish_event,
}
use modular_hx_fastapi.Jetstream.Answers.{
  IsAck, IsAnswered, IsFalsy, falsy, good_ack-IsAck, not_falsy, request-IsAnswered, text_of-string,
}

-- A chain that ends well has had each of its steps end well.
continue-then :
    {S A B : Type 0} (P : Type 0) (q : Result A Thrown × Link S)
    {next : A → Link S → Result B Thrown × Link S} {b : B} {after : Link S}
    → continue q next ≡ (ok b, after)
    → ((a : A) (mid : Link S) → q ≡ (ok a, mid) → next a mid ≡ (ok b, after) → P)
    → P
continue-then P (ok a, mid) h k = k a mid refl h
continue-then P (err t, mid) h k = absurd (ground (arith, ap (λ x. x.0) h))

check-passed :
    {S : Type 0} (test : Bool) (f : Failure) (l mid : Link S)
    → check test f l ≡ (ok tt, mid)
    → test ≡ true
check-passed true f l mid h = refl
check-passed false f l mid h = absurd (ground (arith, ap (λ x. x.0) h))

ok_value : {A : Type 0} (x y : A) → ◌≡◌ {A = Result A Thrown} (ok x) (ok y) → x ≡ y
ok_value x y e = ap (λ r. elim r [ ok v ↦ v | err t ↦ x ]) e

present-some :
    {S A : Type 0} (t : Thrown) (o : Option A) (l mid : Link S) (a : A)
    → present t o l ≡ (ok a, mid)
    → o ≡ some a
present-some t none l mid a h = absurd (ground (arith, ap (λ x. x.0) h))
present-some t (some b) l mid a h = ap some (ok_value b a (ap (λ x. x.0) h))

present_link :
    {S A : Type 0} (t : Thrown) (o : Option A) (l mid : Link S) (a : A)
    → present t o l ≡ (ok a, mid)
    → mid ≡ l
present_link t none l mid a h = absurd (ground (arith, ap (λ x. x.0) h))
present_link t (some b) l mid a h = sym (ap (λ x. x.1) h)

check_link :
    {S : Type 0} (test : Bool) (f : Failure) (l mid : Link S)
    → check test f l ≡ (ok tt, mid)
    → mid ≡ l
check_link true f l mid h = sym (ap (λ x. x.1) h)
check_link false f l mid h = absurd (ground (arith, ap (λ x. x.0) h))

given :
    {S A : Type 0} (a b : A) (l last : Link S)
    → ◌≡◌ {A = Result A Thrown × Link S} (give a l) (ok b, last)
    → (a ≡ b) × (l ≡ last)
given a b l last h = (ok_value a b (ap (λ x. x.0) h), ap (λ x. x.1) h)

-- An operation that answers a value has ended well.
operate-ok :
    {S A : Type 0} (aborted : Bool) (q : Result A Thrown × Link S) (a : A) (after : Link S)
    → settled_operation aborted q ≡ (ok a, after)
    → q ≡ (ok a, after)
operate-ok aborted (ok b, l) a after h =
    ap (λ (x : _). (ok x, l)) (answer_value b a (ap (λ x. x.0) h))
    ∙ ap (λ (x : Link _). (ok a, x)) (ap (λ x. x.1) h)
  where
    answer_value : {A : Type 0} (x y : A) → ◌≡◌ {A = Result A Failure} (ok x) (ok y) → x ≡ y
    answer_value x y e = ap (λ r. elim r [ ok v ↦ v | err f ↦ x ]) e
operate-ok aborted (err t, l) a after h = absurd (ground (arith, ap (λ x. x.0) h))

-- A request of the interface of the server is sent without headers; its answer is strict UTF-8 of JSON.
pub record IsApi (p : Platform) {S : Type 0} (path : Text) (input : Value) (l : Link S)
    (out : Value) (after : Link S) : Type 0 where
  pub answer : Message
  pub asked :
      IsAnswered (record { subject = path; bytes = p.stringify input; headers = [] }) l answer after
  pub decoded : Text
  pub strict : p.text_fatal answer.bytes ≡ some decoded
  pub parsed : p.parse_json decoded ≡ some out

-- What the stream holds under the sequence of an acknowledgement is the event: both texts parse, and to equal
-- values.
pub record IsStored (p : Platform) (c : BrokerConfig) {S : Type 0} (event : Envelope) (ack : Value)
    (l after : Link S) : Type 0 where
  pub stored : Value
  pub read :
      IsApi p
        (codes "$JS.API.STREAM.MSG.GET." ++ c.stream)
        (object (prop (codes "seq") (property "seq" ack) end))
        l
        stored
        after
  pub encoded : Text
  pub original : Value
  pub own : Value
  pub there : property "data" (property "message" stored) ≡ string encoded
  pub parsed : p.parse_json (p.buffer_text (p.from_base64 encoded)) ≡ some original
  pub parsed_own : p.parse_json (p.buffer_text event.raw) ≡ some own
  pub equal : p.deep_equal original own ≡ true

-- The request that publishes an event: its bytes, with its identifier and the stream in the headers.
abbrev pub publication : BrokerConfig → Envelope → Sent
publication c event = record {
  subject = codes "n2f.events." ++ c.stream;
  bytes = event.raw;
  headers = ("Nats-Msg-Id", event.id) ∷ ("Nats-Expected-Stream", c.stream) ∷ [];
}

module _ (p : Platform) (c : BrokerConfig) {S : Type 0} where
  -- A receipt names the event; its publication was answered by an acknowledgement of the stream, and if that
  -- says that the event is a duplicate, the stream was asked, and holds the event under the sequence.
  pub record IsPublished (event : Envelope) (l : Link S) (r : Receipt) (after : Link S)
      : Type 0 where
    pub receipt : r ≡ record { event_id = event.id; durable = true }
    pub answer : Message
    pub between : Link S
    pub published : IsAnswered (publication c event) l answer between
    pub ack : Value
    pub parsed : p.parse_json (p.text_lossy answer.bytes) ≡ some ack
    pub acknowledged : IsAck c.stream ack
    pub original :
        (IsFalsy (property "duplicate" ack) × (after ≡ between))
        ⊎ ((IsFalsy (property "duplicate" ack) → ⊥) × IsStored p c event ack between after)

  api-IsApi :
      (path : Text) (input : Value) (l last : Link S) (out : Value)
      → api p c path input l ≡ (ok out, last)
      → IsApi p path input l out last
  unfolding api
  api-IsApi path input l last out h =
      let P = IsApi p path input l out last in
      continue-then P (request path (p.stringify input) [] l) h (λ message l1 q h1.
        continue-then P (present unexpected (p.text_fatal message.bytes) l1) h1 (λ decoded l2 t h2.
          continue-then P (present unexpected (p.parse_json decoded) l2) h2 (λ o l3 j h3.
            continue-then P (check (is_container o) broker_unavailable l3) h3 (λ u l4 k h4.
              let (same_out, same_last) = given o out l4 last h4 in
              let back : l1 ≡ last =
                sym (present_link _ _ l1 l2 decoded t)
                ∙ sym (present_link _ _ l2 l3 o j)
                ∙ sym (check_link _ _ l3 l4 k)
                ∙ same_last in
              record {
                answer = message;
                asked =
                    subst (IsAnswered _ l message) back
                      (request-IsAnswered path (p.stringify input) [] l l1 message q);
                decoded = decoded;
                strict = present-some _ _ l1 l2 decoded t;
                parsed = present-some _ _ l2 l3 o j ∙ ap some same_out;
              }))))

  check_stored-IsStored :
      (event : Envelope) (ack : Value) (l last : Link S)
      → check_stored p c event ack l ≡ (ok tt, last)
      → IsStored p c event ack l last
  unfolding check_stored
  check_stored-IsStored event ack l last h =
      let P = IsStored p c event ack l last in
      let path = codes "$JS.API.STREAM.MSG.GET." ++ c.stream in
      let input = object (prop (codes "seq") (property "seq" ack) end) in
      continue-then P (api p c path input l) h (λ stored l1 a h1.
        continue-then P
          (present (app broker_unavailable) (text_of (property "data" (property "message" stored)))
            l1)
          h1
          (λ encoded l2 d h2.
            continue-then P
              (present unexpected (p.parse_json (p.buffer_text (p.from_base64 encoded))) l2) h2
              (λ original l3 o h3.
                continue-then P (present unexpected (p.parse_json (p.buffer_text event.raw)) l3) h3
                  (λ own l4 w h4.
                    let back : l1 ≡ last =
                      sym (present_link _ _ l1 l2 encoded d)
                      ∙ sym (present_link _ _ l2 l3 original o)
                      ∙ sym (present_link _ _ l3 l4 own w)
                      ∙ sym (check_link _ _ l4 last h4) in
                    record {
                      stored = stored;
                      read =
                          subst (IsApi p path input l stored) back
                            (api-IsApi path input l l1 stored a);
                      encoded = encoded;
                      original = original;
                      own = own;
                      there =
                          text_of-string (property "data" (property "message" stored)) encoded
                            (present-some _ _ l1 l2 encoded d);
                      parsed = present-some _ _ l2 l3 original o;
                      parsed_own = present-some _ _ l3 l4 own w;
                      equal = check-passed (p.deep_equal original own) id_reused l4 last h4;
                    }))))

  duplicate-IsStored :
      (event : Envelope) (ack : Value) (l last : Link S)
      → (if is_truthy (property "duplicate" ack) then check_stored p c event ack else give tt) l
        ≡ (ok tt, last)
      → (IsFalsy (property "duplicate" ack) × (last ≡ l))
        ⊎ ((IsFalsy (property "duplicate" ack) → ⊥) × IsStored p c event ack l last)
  duplicate-IsStored event ack l last h = elim (Bool-cases (is_truthy (property "duplicate" ack))) [
    | inl e ↦ inr (
      not_falsy (property "duplicate" ack) e,
      check_stored-IsStored event ack l last (ap (chosen l) (sym e) ∙ h),
    )
    | inr e ↦
        inl (falsy (property "duplicate" ack) e, sym (ap (λ x. x.1) (ap (chosen l) (sym e) ∙ h)))
  ]
    where
      chosen : Link S → Bool → Result (Unit {0}) Thrown × Link S
      chosen l b = (if b then check_stored p c event ack else give tt) l

  -- If publishing answers a receipt, it names the event, and the event's bytes were sent with its identifier and
  -- the stream in the headers; the answer is an acknowledgement of the stream without an error and with a
  -- positive safe sequence. Unless it says that the event is a duplicate nothing else was sent; if it does, the
  -- stream was asked for the message of that sequence, which has the content of the event.
  pub publish_event-IsPublished :
      (aborted : Bool) (event : Envelope) (l : Link S) (r : Receipt) (after : Link S)
      → publish_event p c aborted event l ≡ (ok r, after)
      → IsPublished event l r after
  unfolding publish_event operate
  publish_event-IsPublished aborted event l r after h =
      let P = IsPublished event l r after in
      let s = publication c event in
      continue-then P (request s.subject s.bytes s.headers l) (operate-ok aborted _ r after h)
        (λ message l1 q h1.
          continue-then P (present unexpected (p.parse_json (p.text_lossy message.bytes)) l1) h1
            (λ ack l2 a h2.
              continue-then P (present unexpected (if is_nullish ack then none else some tt) l2) h2
                (λ u l3 n h3.
                  continue-then P (check (good_ack c.stream ack) broker_unavailable l3) h3
                    (λ v l4 g h4.
                      continue-then P
                        ((if is_truthy (property "duplicate" ack)
                            then check_stored p c event ack
                            else give tt)
                          l4)
                        h4
                        (λ w l5 d h5.
                          let (named, ended) =
                            given (record { event_id = event.id; durable = true }) r l5 after h5 in
                          let back : l1 ≡ l4 =
                            sym (present_link _ _ l1 l2 ack a)
                            ∙ sym (present_link _ _ l2 l3 u n)
                            ∙ sym (check_link _ _ l3 l4 g) in
                          record {
                            receipt = sym named;
                            answer = message;
                            between = l4;
                            published =
                                subst (IsAnswered s l message) back
                                  (request-IsAnswered s.subject s.bytes s.headers l l1 message q);
                            ack = ack;
                            parsed = present-some _ _ l1 l2 ack a;
                            acknowledged =
                                good_ack-IsAck c.stream ack
                                  (check-passed (good_ack c.stream ack) broker_unavailable l3 l4 g);
                            original =
                                duplicate-IsStored event ack l4 after
                                  (d ∙ ap (λ (x : Link S). (ok w, x)) ended);
                          })))))
