-- ===== src/Jetstream/Brokers.antt =====
-- src/shared/events/jetstream/broker.ts: provisioning, publishing and transferring.
use modular_hx_fastapi.Common.{
  Bool, List, Option, Props, String, Text, Value, [], above, array, bool, codes, cons, end, equals,
  false, if◌then◌else◌, is_safe_integer, nat, nil, none, not, null, number, object, prop, same,
  some, string, true, ◌&&◌, ◌++◌, ◌==◌, ◌||◌, ◌∷◌,
}
use modular_hx_fastapi.Errors.{Failure, Result, conflict, typed_failure}
use modular_hx_fastapi.Events.{Envelope, Receipt, acked, field, is_nullish, text_of}
use modular_hx_fastapi.Jetstream.Links.{
  Link, Message, Thrown, app, broker_config, broker_unavailable, check, give, operate, present,
  request, unexpected, value, ◌>>=◌, ◌>>◌,
}

pub record BrokerConfig : Type 0 where
  pub stream : Text
  pub consumer : Text

-- What the file uses of the platform, and the decoding of envelopes: JSON.parse of a text, none where it throws;
-- the UTF-8 bytes of JSON.stringify; the text of bytes by a TextDecoder that is fatal, none where it throws, by
-- one that is not, and by Buffer.toString; the bytes of base64.
pub record Platform : Type 0 where
  pub parse_json : Text → Option Value
  pub text_fatal : Text → Option Text
  pub text_lossy : Text → Text
  pub buffer_text : Text → Text
  pub stringify : Value → Text
  pub from_base64 : Text → Text
  pub deep_equal : Value → Value → Bool
  pub decode : Text → Result Envelope Failure

-- `v.key`, for a value that is there.
abbrev pub property : String → Value → Value
property key (object ps) = field key ps
property key _ = Value.undefined

-- Whether a value of JSON counts as true.
abbrev pub is_truthy : Value → Bool
is_truthy Value.undefined = false
is_truthy null = false
is_truthy (bool b) = b
is_truthy (number n) = not (equals n 0)
is_truthy (string []) = false
is_truthy _ = true

-- `!!out && typeof out === 'object'`.
abbrev pub is_container : Value → Bool
is_container (object ps) = true
is_container (array xs) = true
is_container _ = false

abbrev pub is_text : Text → Value → Bool
is_text t (string s) = same s t
is_text t _ = false

abbrev pub is_sequence : Value → Bool
is_sequence (number n) = is_safe_integer n && above n 0
is_sequence _ = false

abbrev pub good_ack : Text → Value → Bool
good_ack stream ack =
    not (is_truthy (property "error" ack))
    && is_text stream (property "stream" ack)
    && is_sequence (property "seq" ack)

abbrev is_missing : Value → Bool
is_missing v = equals_code (property "code" (property "error" v))
  where
    equals_code : Value → Bool
    equals_code (number n) = equals n 404
    equals_code _ = false

-- `compatible`.
unfoldable pub compatible : (Value → Value → Bool) → Value → List (String × Value) → Bool
compatible deep_equal got [] = is_truthy got
compatible deep_equal got ((key, expected) ∷ want) =
    deep_equal (property key got) expected && compatible deep_equal got want

abbrev pub props_of : List (String × Value) → Props
props_of [] = end
props_of ((k, v) ∷ ps) = prop (codes k) v (props_of ps)

abbrev pub id_reused : Failure
id_reused = typed_failure conflict "event delivery conflict" "events.id_reused"

abbrev pub ack_text : Text
ack_text = codes "+ACK"

abbrev pub reply_of : Option Text → Option Text
reply_of none = none
reply_of (some []) = none
reply_of (some (u ∷ t)) = some (u ∷ t)

module _ (p : Platform) (c : BrokerConfig) where
  abbrev pub event_subject : Text
  event_subject = codes "n2f.events." ++ c.stream

  abbrev pub consumer_path : Text
  consumer_path = c.stream ++ (codes "." ++ c.consumer)

  abbrev pub stream_config : List (String × Value)
  stream_config =
      ("name", string c.stream)
      ∷ ("subjects", array (cons (string event_subject) nil))
      ∷ ("storage", string (codes "file"))
      ∷ ("num_replicas", number (nat 1))
      ∷ ("retention", string (codes "limits"))
      ∷ ("discard", string (codes "new"))
      ∷ ("max_bytes", number (nat 67108864))
      ∷ ("max_msg_size", number (nat 131072))
      ∷ ("duplicate_window", number (nat 120000000000))
      ∷ []

  abbrev pub consumer_config : List (String × Value)
  consumer_config =
      ("durable_name", string c.consumer)
      ∷ ("ack_policy", string (codes "explicit"))
      ∷ ("ack_wait", number (nat 1000000000))
      ∷ ("max_deliver", number (nat 5))
      ∷ ("max_ack_pending", number (nat 1))
      ∷ ("filter_subject", string event_subject)
      ∷ ("deliver_policy", string (codes "all"))
      ∷ ("replay_policy", string (codes "instant"))
      ∷ []

  module _ {S : Type 0} where
    -- `api`.
    unfoldable pub api : Text → Value → Link S → Result Value Thrown × Link S
    api path input = do
      message ← request path (p.stringify input) []
      decoded ← present unexpected (p.text_fatal message.bytes)
      out ← present unexpected (p.parse_json decoded)
      check (is_container out) broker_unavailable
      give out

    -- An item is read, created if it is missing, and compared.
    unfoldable pub ensure :
        Text → Text → Value → List (String × Value) → Link S → Result (Unit {0}) Thrown × Link S
    ensure info_path create_path input want = do
      found ← api info_path (object end)
      info ← if is_missing found then api create_path input else give found
      check (not (is_truthy (property "error" info))) broker_unavailable
      check (compatible p.deep_equal (property "config" info) want) broker_config

    -- `provision`.
    unfoldable pub provision : Bool → Link S → Result (Unit {0}) Failure × Link S
    provision aborted = operate aborted (do
      ensure (codes "$JS.API.STREAM.INFO." ++ c.stream) (codes "$JS.API.STREAM.CREATE." ++ c.stream)
          (object (props_of stream_config)) stream_config
      ensure (codes "$JS.API.CONSUMER.INFO." ++ consumer_path)
          (codes "$JS.API.CONSUMER.DURABLE.CREATE." ++ consumer_path)
          (object (
            props_of (
              ("stream_name", string c.stream)
              ∷ ("config", object (props_of consumer_config))
              ∷ [])))
          consumer_config)

    -- A duplicate has to be stored with the content of the event.
    unfoldable pub check_stored : Envelope → Value → Link S → Result (Unit {0}) Thrown × Link S
    check_stored event ack = do
      stored ←
          api (codes "$JS.API.STREAM.MSG.GET." ++ c.stream)
            (object (props_of (("seq", property "seq" ack) ∷ [])))
      encoded ←
          present (app broker_unavailable) (text_of (property "data" (property "message" stored)))
      original ← present unexpected (p.parse_json (p.buffer_text (p.from_base64 encoded)))
      own ← present unexpected (p.parse_json (p.buffer_text event.raw))
      check (p.deep_equal original own) id_reused

    -- `publish`.
    unfoldable pub publish_event : Bool → Envelope → Link S → Result Receipt Failure × Link S
    publish_event aborted event = operate aborted (do
      message ←
          request event_subject event.raw
            (("Nats-Msg-Id", event.id) ∷ ("Nats-Expected-Stream", c.stream) ∷ [])
      ack ← present unexpected (p.parse_json (p.text_lossy message.bytes))
      present unexpected (if is_nullish ack then none else some tt)
      check (good_ack c.stream ack) broker_unavailable
      if is_truthy (property "duplicate" ack) then check_stored event ack else give tt
      give (record { event_id = event.id; durable = true }))

    -- A sink's publication; an exception is thrown on.
    abbrev pub sink_publish :
        (Envelope → S → Result Receipt Thrown × S)
        → Envelope
        → Link S
        → Result Receipt Thrown × Link S
    sink_publish sink event l = let (r, s) = sink event l.store in (r, record l { store = s })

    -- The part of `transfer` with a message.
    unfoldable pub hand_over :
        (Envelope → S → Result Receipt Thrown × S)
        → Message
        → Text
        → Link S
        → Result Bool Thrown × Link S
    hand_over sink message reply = do
      event ← value (p.decode message.bytes)
      receipt ← sink_publish sink event
      check (receipt.durable && same receipt.event_id event.id) broker_unavailable
      acked ← request reply ack_text []
      give true

    -- The part of `transfer` after a message is answered.
    abbrev pub on_message :
        (Envelope → S → Result Receipt Thrown × S) → Message → Link S → Result Bool Thrown × Link S
    on_message sink message = if message.code == 404 || message.code == 408 then give false else (do
      reply ← present (app broker_unavailable) (reply_of message.reply)
      hand_over sink message reply)

    -- `transfer`.
    unfoldable pub transfer :
        Bool → (Envelope → S → Result Receipt Thrown × S) → Link S → Result Bool Failure × Link S
    transfer aborted sink = operate aborted (do
      message ←
          request (codes "$JS.API.CONSUMER.MSG.NEXT." ++ consumer_path)
            (codes "{\"batch\":1,\"no_wait\":true}") []
      on_message sink message)
