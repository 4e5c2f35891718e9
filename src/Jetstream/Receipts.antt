-- ===== src/Jetstream/Receipts.antt =====
-- When exactly `publish` answers a receipt (src/shared/events/jetstream/broker.ts).
use modular_hx_fastapi.Common.{
  Bool, Bool-cases, List, Option, Text, Value, [], ap, arith, array, bool, false, if◌then◌else◌,
  inl, inr, length, none, null, number, object, opaque, refl, same_refl, some, string, sym, true,
  ◌++◌, ◌↔◌, ◌∙◌, ◌∷◌, ◌≡◌, ◌≤◌, ◌⊎◌,
}
use modular_hx_fastapi.Errors.{Failure, Result, ok}
use modular_hx_fastapi.Jetstream.Links.{
  Link, Message, Reply, Sent, Thrown, answered, app, broker_unavailable, check, continue, give,
  on_reply, operate, present, request, settled_operation, unexpected,
}
use modular_hx_fastapi.Events.{Envelope, Receipt, is_nullish, text_of}
use modular_hx_fastapi.Jetstream.Brokers.{
  BrokerConfig, Platform, api, check_stored, good_ack, id_reused, is_container, is_sequence,
  is_text, is_truthy, property, publish_event,
}
use modular_hx_fastapi.Jetstream.Answers.{IsAck, IsAnswered, IsFalsy, falsy, not_falsy}
use modular_hx_fastapi.Jetstream.Publishing.{
  IsApi, IsPublished, IsStored, publication, publish_event-IsPublished,
}

falsy-is_truthy : (v : Value) → IsFalsy v → is_truthy v ≡ false
falsy-is_truthy v h = elim (Bool-cases (is_truthy v)) [
  | inl e ↦ absurd (not_falsy v e h)
  | inr e ↦ e
]

truthy : (v : Value) → (IsFalsy v → ⊥) → is_truthy v ≡ true
truthy v h = elim (Bool-cases (is_truthy v)) [ inl e ↦ e | inr e ↦ absurd (h (falsy v e)) ]

acknowledged-good_ack :
    (stream : Text) (ack : Value) → IsAck stream ack → good_ack stream ack ≡ true
acknowledged-good_ack stream ack (e, s, (n, q, low, high)) =
    let no_error = falsy-is_truthy (property "error" ack) e in
    let named : is_text stream (property "stream" ack) ≡ true =
      ap (is_text stream) s ∙ same_refl stream in
    let sequenced : is_sequence (property "seq" ack) ≡ true = ap is_sequence q ∙ ground arith in
    ground (arith, no_error, named, sequenced)

acknowledged-is_nullish :
    (t : Text) (ack : Value) → property "stream" ack ≡ string t → is_nullish ack ≡ false
acknowledged-is_nullish t Value.undefined h = absurd (ground arith)
acknowledged-is_nullish t null h = absurd (ground arith)
acknowledged-is_nullish t (bool b) h = refl
acknowledged-is_nullish t (number n) h = refl
acknowledged-is_nullish t (string s) h = refl
acknowledged-is_nullish t (object ps) h = refl
acknowledged-is_nullish t (array xs) h = refl
acknowledged-is_nullish t (opaque k) h = refl

stored-is_container :
    (t : Text) (v : Value)
    → property "data" (property "message" v) ≡ string t
    → is_container v ≡ true
stored-is_container t Value.undefined h = absurd (ground arith)
stored-is_container t null h = absurd (ground arith)
stored-is_container t (bool b) h = absurd (ground arith)
stored-is_container t (number n) h = absurd (ground arith)
stored-is_container t (string s) h = absurd (ground arith)
stored-is_container t (object ps) h = refl
stored-is_container t (array xs) h = refl
stored-is_container t (opaque k) h = absurd (ground arith)

-- A chain goes on from a step that ended well.
continue-with :
    {S A B : Type 0} {q : Result A Thrown × Link S} (next : A → Link S → Result B Thrown × Link S)
    {a : A} {mid : Link S} {z : Result B Thrown × Link S}
    → q ≡ (ok a, mid)
    → next a mid ≡ z
    → continue q next ≡ z
continue-with next e h = ap (λ x. continue x next) e ∙ h

some-present :
    {S A : Type 0} (t : Thrown) (o : Option A) (l : Link S) (a : A)
    → o ≡ some a
    → present t o l ≡ (ok a, l)
some-present t o l a e = ap (λ x. present t x l) e

passed-check :
    {S : Type 0} (test : Bool) (f : Failure) (l : Link S)
    → test ≡ true
    → check test f l ≡ (ok tt, l)
passed-check test f l e = ap (λ x. check x f l) e

answered-answered :
    {S : Type 0} (m : Message) (l : Link S) → length m.bytes ≤ 131072 → answered m l ≡ (ok m, l)
answered-answered m l h = ground arith

answered-request :
    {S : Type 0} (s : Sent) (l after : Link S) (m : Message)
    → IsAnswered s l m after
    → request s.subject s.bytes s.headers l ≡ (ok m, after)
unfolding request
answered-request s l after m i =
    let sent_link : Link _ = record l { replies = after.replies; sent = l.sent ++ s ∷ [] } in
    let same_sent : sent_link ≡ record l { replies = after.replies; sent = after.sent } =
      ap (λ (x : List Sent). record l { replies = after.replies; sent = x }) (sym i.sent) in
    let same_link : record l { replies = after.replies; sent = after.sent } ≡ after =
      ap (λ x. record after { store = x }) (sym i.store) in
    ap (λ (rs : List Reply). on_reply s rs l) i.came
    ∙ answered-answered m sent_link i.small
    ∙ ap (λ (x : Link _). (ok m, x)) (same_sent ∙ same_link)

module _ (p : Platform) (c : BrokerConfig) {S : Type 0} where
  asked-api :
      (path : Text) (input : Value) (l after : Link S) (out : Value)
      → is_container out ≡ true
      → IsApi p path input l out after
      → api p c path input l ≡ (ok out, after)
  unfolding api
  asked-api path input l after out k i =
      continue-with _ (answered-request _ l after i.answer i.asked) (
        continue-with _ (some-present unexpected _ after i.decoded i.strict) (
          continue-with _ (some-present unexpected _ after out i.parsed)
            (continue-with _ (passed-check (is_container out) broker_unavailable after k) refl)))

  stored-check_stored :
      (event : Envelope) (ack : Value) (l after : Link S)
      → IsStored p c event ack l after
      → check_stored p c event ack l ≡ (ok tt, after)
  unfolding check_stored
  stored-check_stored event ack l after i =
      continue-with _
        (asked-api _ _ l after i.stored (stored-is_container i.encoded i.stored i.there) i.read)
        (continue-with _
          (some-present (app broker_unavailable) _ after i.encoded (ap text_of i.there))
          (continue-with _ (some-present unexpected _ after i.original i.parsed) (
            continue-with _ (some-present unexpected _ after i.own i.parsed_own)
              (passed-check (p.deep_equal i.original i.own) id_reused after i.equal))))

  chosen :
      (event : Envelope) (ack : Value) (l after : Link S)
      → (IsFalsy (property "duplicate" ack) × (after ≡ l))
        ⊎ ((IsFalsy (property "duplicate" ack) → ⊥) × IsStored p c event ack l after)
      → (if is_truthy (property "duplicate" ack) then check_stored p c event ack else give tt) l
        ≡ (ok tt, after)
  chosen event ack l after (inl (f, e)) =
      ap (λ (b : Bool). (if b then check_stored p c event ack else give tt) l)
        (falsy-is_truthy (property "duplicate" ack) f)
      ∙ ap (λ (x : Link S). (ok tt, x)) (sym e)
  chosen event ack l after (inr (f, i)) =
      ap (λ (b : Bool). (if b then check_stored p c event ack else give tt) l)
        (truthy (property "duplicate" ack) f)
      ∙ stored-check_stored event ack l after i

  published-publish_event :
      (aborted : Bool) (event : Envelope) (l : Link S) (r : Receipt) (after : Link S)
      → IsPublished p c event l r after
      → publish_event p c aborted event l ≡ (ok r, after)
  unfolding publish_event operate
  published-publish_event aborted event l r after i =
      let (e, s, q) = i.acknowledged in
      let there : is_nullish i.ack ≡ false = acknowledged-is_nullish c.stream i.ack s in
      ap (settled_operation aborted) (
        continue-with _ (answered-request (publication c event) l i.between i.answer i.published) (
          continue-with _ (some-present unexpected _ i.between i.ack i.parsed) (
            continue-with _
              (some-present unexpected _ i.between tt
                (ap (λ (b : Bool). if b then none else some tt) there))
              (continue-with _
                (passed-check _ broker_unavailable i.between
                  (acknowledged-good_ack c.stream i.ack (e, s, q)))
                (continue-with _ (chosen event i.ack i.between after i.original)
                  (ap (λ (x : Receipt). (ok x, after)) (sym i.receipt)))))))

  -- Publishing answers a receipt exactly if the event's bytes, sent with its identifier and the stream in the
  -- headers, are answered by an acknowledgement of the stream without an error and with a positive safe
  -- sequence; and unless that says that the event is a duplicate nothing else was sent, and if it does, the
  -- stream was asked for the message of that sequence, which has the content of the event. The receipt names
  -- the event.
  pub publish_event_iff :
      (aborted : Bool) (event : Envelope) (l : Link S) (r : Receipt) (after : Link S)
      → (publish_event p c aborted event l ≡ (ok r, after)) ↔ IsPublished p c event l r after
  publish_event_iff aborted event l r after = (
    publish_event-IsPublished p c aborted event l r after,
    published-publish_event aborted event l r after,
  )
