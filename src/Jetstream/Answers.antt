-- ===== src/Jetstream/Answers.antt =====
-- What answers of the broker say, and what a request that is answered has done
-- (src/shared/events/jetstream/broker.ts).
use modular_hx_fastapi.Common.{
  Bool-cases, List, String, Text, Value, [], ap, arith, array, bool, false, inl, inr, length, ltb,
  nat, neg, non_integer, null, number, object, opaque, refl, same_iff, some, string, subst, true, ℕ,
  ◌++◌, ◌∷◌, ◌≡◌, ◌≤◌, ◌⊎◌,
}
use modular_hx_fastapi.Errors.{ok}
use modular_hx_fastapi.Jetstream.Links.{
  Link, Message, Reply, Sent, answered, lost, max_message, on_reply, refused, replied, request,
}
use modular_hx_fastapi.Events.{text_of}
use modular_hx_fastapi.Jetstream.Brokers.{good_ack, is_sequence, is_text, is_truthy, property}

-- A value of JSON that counts as false.
abbrev pub IsFalsy : Value → Type 0
IsFalsy v =
    (v ≡ Value.undefined) ⊎ (v ≡ null) ⊎ (v ≡ bool false) ⊎ (v ≡ number (nat 0)) ⊎ (v ≡ string [])

pub falsy : (v : Value) → is_truthy v ≡ false → IsFalsy v
falsy Value.undefined h = inl refl
falsy null h = inr (inl refl)
falsy (bool true) h = absurd (ground arith)
falsy (bool false) h = inr (inr (inl refl))
falsy (number (nat n)) h =
    let zero_value : n ≡ 0 = ground arith in
    inr (inr (inr (inl (ap (λ (k : ℕ). number (nat k)) zero_value))))
falsy (number (neg n)) h = absurd (ground arith)
falsy (number non_integer) h = absurd (ground arith)
falsy (string []) h = inr (inr (inr (inr refl)))
falsy (string (c ∷ s)) h = absurd (ground arith)
falsy (object ps) h = absurd (ground arith)
falsy (array xs) h = absurd (ground arith)
falsy (opaque k) h = absurd (ground arith)

pub not_falsy : (v : Value) → is_truthy v ≡ true → IsFalsy v → ⊥
not_falsy v h (inl e) = absurd (ground (arith, ap is_truthy e))
not_falsy v h (inr (inl e)) = absurd (ground (arith, ap is_truthy e))
not_falsy v h (inr (inr (inl e))) = absurd (ground (arith, ap is_truthy e))
not_falsy v h (inr (inr (inr (inl e)))) = absurd (ground (arith, ap is_truthy e))
not_falsy v h (inr (inr (inr (inr e)))) = absurd (ground (arith, ap is_truthy e))

-- A positive integer that is safe in JavaScript.
abbrev pub IsSequence : Value → Type 0
IsSequence v = (n : ℕ) × (v ≡ number (nat n)) × (1 ≤ n) × (n ≤ 9007199254740991)

sequence : (v : Value) → is_sequence v ≡ true → IsSequence v
sequence Value.undefined h = absurd (ground arith)
sequence null h = absurd (ground arith)
sequence (bool b) h = absurd (ground arith)
sequence (number (nat n)) h = (n, refl, ground arith, ground arith)
sequence (number (neg n)) h = absurd (ground arith)
sequence (number non_integer) h = absurd (ground arith)
sequence (string t) h = absurd (ground arith)
sequence (object ps) h = absurd (ground arith)
sequence (array xs) h = absurd (ground arith)
sequence (opaque k) h = absurd (ground arith)

same_text : (t : Text) (v : Value) → is_text t v ≡ true → v ≡ string t
same_text t Value.undefined h = absurd (ground arith)
same_text t null h = absurd (ground arith)
same_text t (bool b) h = absurd (ground arith)
same_text t (number n) h = absurd (ground arith)
same_text t (string s) h = ap string ((same_iff s t).0 h)
same_text t (object ps) h = absurd (ground arith)
same_text t (array xs) h = absurd (ground arith)
same_text t (opaque k) h = absurd (ground arith)

-- An acknowledgement of the stream: no error, the name of the stream and a sequence.
abbrev pub IsAck : Text → Value → Type 0
IsAck stream ack =
    IsFalsy (property "error" ack)
    × (property "stream" ack ≡ string stream)
    × IsSequence (property "seq" ack)

pub good_ack-IsAck : (stream : Text) (ack : Value) → good_ack stream ack ≡ true → IsAck stream ack
good_ack-IsAck stream ack h = (
  falsy (property "error" ack) (ground arith),
  same_text stream (property "stream" ack) (ground arith),
  sequence (property "seq" ack) (ground arith),
)

pub text_of-string : (v : Value) (t : Text) → text_of v ≡ some t → v ≡ string t
text_of-string Value.undefined t h = absurd (ground arith)
text_of-string null t h = absurd (ground arith)
text_of-string (bool b) t h = absurd (ground arith)
text_of-string (number n) t h = absurd (ground arith)
text_of-string (string s) t h = let e : s ≡ t = ground arith in ap string e
text_of-string (object ps) t h = absurd (ground arith)
text_of-string (array xs) t h = absurd (ground arith)
text_of-string (opaque k) t h = absurd (ground arith)

-- A request that has the first of the answers to come, of at most 128 KiB, and is recorded as sent.
pub record IsAnswered {S : Type 0} (s : Sent) (l : Link S) (m : Message) (after : Link S)
    : Type 0 where
  pub came : l.replies ≡ replied m ∷ after.replies
  pub small : length m.bytes ≤ 131072
  pub sent : after.sent ≡ l.sent ++ s ∷ []
  pub store : after.store ≡ l.store

replied-IsAnswered :
    {S : Type 0} (s : Sent) (m n : Message) (rs : List Reply) (l after : Link S)
    → l.replies ≡ replied n ∷ rs
    → answered n (record l { replies = rs; sent = l.sent ++ s ∷ [] }) ≡ (ok m, after)
    → IsAnswered s l m after
replied-IsAnswered s m n rs l after r h = elim (Bool-cases (ltb max_message (length n.bytes))) [
  | inl e ↦ absurd (ground (arith, ap (λ x. x.0) h))
  | inr e ↦
      let same_message : n ≡ m = ground arith in
      let same_link : record l { replies = rs; sent = l.sent ++ s ∷ [] } ≡ after = ground arith in
      subst (λ (x : Link _). IsAnswered s l m x) same_link
        (subst
          (λ (x : Message). IsAnswered s l x (record l { replies = rs; sent = l.sent ++ s ∷ [] }))
          same_message (record { came = r; small = ground arith; sent = refl; store = refl }))
]

on_reply-IsAnswered :
    {S : Type 0} (s : Sent) (rs : List Reply) (l after : Link S) (m : Message)
    → l.replies ≡ rs
    → on_reply s rs l ≡ (ok m, after)
    → IsAnswered s l m after
on_reply-IsAnswered s [] l after m r h = absurd (ground (arith, ap (λ x. x.0) h))
on_reply-IsAnswered s (refused ∷ rs) l after m r h = absurd (ground (arith, ap (λ x. x.0) h))
on_reply-IsAnswered s (lost ∷ rs) l after m r h = absurd (ground (arith, ap (λ x. x.0) h))
on_reply-IsAnswered s (replied n ∷ rs) l after m r h = replied-IsAnswered s m n rs l after r h

pub request-IsAnswered :
    {S : Type 0} (subject bytes : Text) (headers : List (String × Text)) (l after : Link S)
    (m : Message)
    → request subject bytes headers l ≡ (ok m, after)
    → IsAnswered (record { subject = subject; bytes = bytes; headers = headers }) l m after
unfolding request
request-IsAnswered subject bytes headers l after m h =
    on_reply-IsAnswered (record { subject = subject; bytes = bytes; headers = headers }) l.replies l
      after m refl h
