-- ===== src/Jetstream/Links.antt =====
-- src/shared/events/jetstream/broker.ts: requests over the connection. The answers that will come are a list,
-- and what was sent is recorded.
use modular_hx_fastapi.Common.{
  Bool, List, Option, String, Text, Value, [], false, if◌then◌else◌, length, ltb, none, some, true,
  ℕ, ◌++◌, ◌∷◌,
}
use modular_hx_fastapi.Errors.{
  Failure, Result, canceled, err, failure, invalid, ok, plain, typed_failure, unavailable,
}

abbrev pub broker_unavailable : Failure
broker_unavailable =
    typed_failure unavailable "JetStream operation incomplete" "events.jetstream_unavailable"

abbrev pub broker_config : Failure
broker_config = typed_failure invalid "invalid JetStream configuration" "events.jetstream_config"

abbrev pub broker_canceled : Failure
broker_canceled =
    failure canceled "JetStream operation canceled"
      (record { type = none; fields = none; details = []; cause = plain Value.undefined })

pub record Message : Type 0 where
  pub bytes : Text
  pub code : ℕ
  pub reply : Option Text

-- A request that is not sent since the signal is aborted, one that has no answer, or its answer.
pub data Reply : Type 0 where
  refused lost : Reply
  replied : Message → Reply

-- A request as it is sent, with its headers.
pub record Sent : Type 0 where
  pub subject : Text
  pub bytes : Text
  pub headers : List (String × Text)

-- What is thrown: a failure in an `AppError`, or anything else.
pub data Thrown : Type 0 where
  app : Failure → Thrown
  unexpected : Thrown

-- The connection, and the tables of a sink.
pub record Link (S : Type 0) : Type 0 where
  pub replies : List Reply
  pub sent : List Sent
  pub store : S

abbrev pub continue :
    {S A B : Type 0}
    → Result A Thrown × Link S
    → (A → Link S → Result B Thrown × Link S)
    → Result B Thrown × Link S
continue (ok a, l) next = next a l
continue (err t, l) next = (err t, l)

infixl 5 ◌>>=◌ ◌>>◌
abbrev pub ◌>>=◌ :
    {S A B : Type 0}
    → (Link S → Result A Thrown × Link S)
    → (A → Link S → Result B Thrown × Link S)
    → Link S
    → Result B Thrown × Link S
(first >>= next) l = continue (first l) next

abbrev pub ◌>>◌ :
    {S B : Type 0}
    → (Link S → Result (Unit {0}) Thrown × Link S)
    → (Link S → Result B Thrown × Link S)
    → Link S
    → Result B Thrown × Link S
(first >> next) l = continue (first l) (λ u. next)

abbrev pub give : {S A : Type 0} → A → Link S → Result A Thrown × Link S
give a l = (ok a, l)

abbrev pub check : {S : Type 0} → Bool → Failure → Link S → Result (Unit {0}) Thrown × Link S
check test f l = if test then (ok tt, l) else (err (app f), l)

-- What is there, or a thrown value.
abbrev pub present : {S A : Type 0} → Thrown → Option A → Link S → Result A Thrown × Link S
present t none l = (err t, l)
present t (some a) l = (ok a, l)

-- `value(r)`.
abbrev pub value : {S A : Type 0} → Result A Failure → Link S → Result A Thrown × Link S
value (ok a) l = (ok a, l)
value (err f) l = (err (app f), l)

abbrev pub max_message : ℕ
max_message = 131072

abbrev pub answered : {S : Type 0} → Message → Link S → Result Message Thrown × Link S
answered m l =
    if ltb max_message (length m.bytes) then (err (app broker_unavailable), l) else (ok m, l)

abbrev pub on_reply : {S : Type 0} → Sent → List Reply → Link S → Result Message Thrown × Link S
on_reply s [] l = (err unexpected, record l { sent = l.sent ++ (s ∷ []) })
on_reply s (refused ∷ rs) l = (err unexpected, record l { replies = rs })
on_reply s (lost ∷ rs) l = (err unexpected, record l { replies = rs; sent = l.sent ++ (s ∷ []) })
on_reply s (replied m ∷ rs) l = answered m (record l { replies = rs; sent = l.sent ++ (s ∷ []) })

-- `request`.
unfoldable pub request :
    {S : Type 0} → Text → Text → List (String × Text) → Link S → Result Message Thrown × Link S
request subject bytes headers l =
    on_reply (record { subject = subject; bytes = bytes; headers = headers }) l.replies l

abbrev pub thrown_failure : Bool → Thrown → Failure
thrown_failure true t = broker_canceled
thrown_failure false (app f) = f
thrown_failure false unexpected = broker_unavailable

abbrev pub settled_operation :
    {S A : Type 0} → Bool → Result A Thrown × Link S → Result A Failure × Link S
settled_operation aborted (ok a, l) = (ok a, l)
settled_operation aborted (err t, l) = (err (thrown_failure aborted t), l)

-- `operation`, with whether the caller's signal is aborted when it ends.
unfoldable pub operate :
    {S A : Type 0} → Bool → (Link S → Result A Thrown × Link S) → Link S → Result A Failure × Link S
operate aborted body l = settled_operation aborted (body l)
