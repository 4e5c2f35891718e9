-- ===== src/Tests/Jetstream.antt =====
-- The broker of src/shared/events/jetstream on concrete answers.
use modular_hx_fastapi.Common.{
  Bool, List, Option, Props, Text, Value, [], bool, codes, end, false, if◌then◌else◌, nat, none,
  number, object, prop, refl, same, some, string, true, ◌&&◌, ◌is◌, ◌↔◌, ◌∷◌, ◌≡◌,
}
use modular_hx_fastapi.Errors.{Result, ok}
use modular_hx_fastapi.Events.{Envelope, Receipt, field}
use modular_hx_fastapi.Jetstream.{
  BrokerConfig, Link, Message, Platform, Thrown, api, check_stored, operate, publish_event, replied,
  request, transfer,
}
use modular_hx_fastapi.Jetstream.Acknowledging.{IsTransferred, transfer-IsTransferred}
use modular_hx_fastapi.Jetstream.Publishing.{IsPublished, publication}
use modular_hx_fastapi.Jetstream.Receipts.{publish_event_iff}
use modular_hx_fastapi.Tests.Events.{event_of, token}

abbrev broker_config_a : BrokerConfig
broker_config_a = record { stream = codes "a"; consumer = codes "b" }

-- The answers of the broker: an acknowledgement of a duplicate, and what is stored.
abbrev ack_bytes : Text
ack_bytes = codes "{\"stream\":\"a\",\"seq\":1,\"duplicate\":true}"

abbrev ack_value : Value
ack_value = object (
    prop (codes "stream") (string (codes "a"))
      (prop (codes "seq") (number (nat 1)) (prop (codes "duplicate") (bool true) end)))

abbrev stored_bytes : Text
stored_bytes = codes "{\"message\":{\"data\":\"eyJpZCI6MX0=\"}}"

abbrev stored_value : Value
stored_value =
    object (
      prop (codes "message") (object (prop (codes "data") (string (codes "eyJpZCI6MX0=")) end)) end)

abbrev event_value : Value
event_value = object (prop (codes "id") (string token) end)

abbrev parsed_json : Text → Option Value
parsed_json t =
    if same t ack_bytes
    then some ack_value
    else if same t stored_bytes
    then some stored_value
    else if same t token
    then some event_value
    else none

-- The equality of objects of texts.
abbrev same_members : Props → Props → Bool
same_members end end = true
same_members (prop k (string v) ps) (prop j (string w) qs) =
    same k j && same v w && same_members ps qs
same_members _ _ = false

abbrev same_object : Value → Value → Bool
same_object (object ps) (object qs) = same_members ps qs
same_object _ _ = false

abbrev platform : Platform
platform = record {
  parse_json = parsed_json;
  text_fatal = λ t. some t;
  text_lossy = λ t. t;
  buffer_text = λ t. t;
  stringify = λ v. codes "{\"seq\":1}";
  from_base64 = λ t. if same t (codes "eyJpZCI6MX0=") then token else [];
  deep_equal = same_object;
  decode = λ t. ok (event_of t);
}

-- A sink that keeps the identifiers of events.
abbrev keeping_sink : Envelope → List Text → Result Receipt Thrown × List Text
keeping_sink e s = (ok (record { event_id = e.id; durable = true }), e.id ∷ s)

abbrev a_message : Message
a_message = record { bytes = token; code = 0; reply = some (codes "r") }

abbrev link : Link (List Text)
link = record { replies = replied a_message ∷ replied a_message ∷ []; sent = []; store = [] }

transfer-IsTransferred_example :
    IsTransferred platform broker_config_a keeping_sink link
      (transfer platform broker_config_a false keeping_sink link).0
      (transfer platform broker_config_a false keeping_sink link).1
transfer-IsTransferred_example =
    transfer-IsTransferred platform broker_config_a keeping_sink false link

abbrev answer_of : Text → Message
answer_of t = record { bytes = t; code = 0; reply = none }

abbrev duplicate_link : Link (List Text)
duplicate_link = record {
  replies = replied (answer_of ack_bytes) ∷ replied (answer_of stored_bytes) ∷ [];
  sent = [];
  store = [];
}

-- The requests that publish the event and ask for what is stored.
abbrev published_link : Link (List Text)
published_link = record {
  replies = [];
  sent =
      publication broker_config_a (event_of token)
      ∷ record {
        subject = codes "$JS.API.STREAM.MSG.GET.a";
        bytes = codes "{\"seq\":1}";
        headers = [];
      }
      ∷ [];
  store = [];
}

did_publish :
    publish_event platform broker_config_a false (event_of token) duplicate_link
    ≡ (ok (record { event_id = token; durable = true }), published_link)
unfolding publish_event operate request check_stored api field ◌is◌ same
did_publish = refl

publish_event_iff_example :
    (publish_event platform broker_config_a false (event_of token) duplicate_link
      ≡ (ok (record { event_id = token; durable = true }), published_link))
    ↔ IsPublished platform broker_config_a
        (event_of token)
        duplicate_link
        (record { event_id = token; durable = true })
        published_link
publish_event_iff_example =
    publish_event_iff platform broker_config_a false (event_of token) duplicate_link
      (record { event_id = token; durable = true }) published_link
