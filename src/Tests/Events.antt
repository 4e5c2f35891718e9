-- ===== src/Tests/Events.antt =====
-- The outbox and the mailbox of src/shared/events on concrete inputs.
use modular_hx_fastapi.Common.{
  List, Props, Text, Value, [], ap, arith, codes, end, false, if◌then◌else◌, length, ltb, nat, none,
  number, object, prop, refl, same, some, string, sym, true, ℕ, ◌+◌, ◌is◌, ◌∙◌, ◌∷◌, ◌≡◌, ◌≤◌,
}
use modular_hx_fastapi.Errors.{Failure, Result, ok}
use modular_hx_fastapi.Provenance.{
  WorkContext, attribution, check_causation, check_depth, check_replay, operation, restore_work,
  valid_id, valid_operation, validate_work,
}
use modular_hx_fastapi.Identifiers.{matches, parse}
use modular_hx_fastapi.Events.{
  Backend, Envelope, Fate, Json, Receipt, Row, Run, actor_out, attribution_in, attribution_out,
  claim, commits, decode_envelope, dispatch, dotted, field, has_key_named, id_in, new_row,
  normalized_value, only_keys, read_envelope, ref_out, replay_out, set_prop, unanswered, valid_head,
  work_in, work_out,
}
use modular_hx_fastapi.Events.Tables.{IsTable}
use modular_hx_fastapi.Events.Orders.{
  Operation, Reached, Reached-IsTable, claims, created, enqueues, finishes, perform, performed,
}
use modular_hx_fastapi.Events.Dispatches.{IsDispatched, dispatch-IsDispatched}
use modular_hx_fastapi.Events.Decoding.{IsJson, decode_envelope-again}
use modular_hx_fastapi.Events.Mailbox.{count_processed}
use modular_hx_fastapi.Events.Handling.{
  IsHandler, MailOperation, MailReached, consumes, handled_at_most_once, mail_created,
  mail_performed, perform_mail, publishes,
}

abbrev pub token : Text
token = codes "00000000-0000-7000-8000-000000000001"

abbrev pub work : WorkContext
work = record {
  known = true;
  snapshot = record {
    work_id = some token;
    correlation_id = some token;
    correlation_source = codes "local";
    causation = none;
    origin = none;
    operation = codes "test";
    attribution = record {
      known = true;
      spec = record { initiator = none; on_behalf_of = none; tenant = none };
    };
    depth = none;
    replay = none;
  };
}

abbrev pub event_of : Text → Envelope
event_of t = record { id = t; raw = t; work = work }

-- A stored text is the identifier of its event.
abbrev backend : Backend
backend = record {
  id_less = λ s t. ltb (length s) (length t);
  same_json = same;
  decode = λ t. ok (event_of t);
}

abbrev run_at : ℕ → Fate → Run
run_at now fate = record { fate = fate; first_now = now; now = now }

-- An event is enqueued twice and claimed, and its lease is given back too late.
abbrev late_release : List Operation
late_release =
    finishes (record { event = event_of token; token = token; attempt = 1 }) false
      (run_at 90000 commits)
    ∷ claims token (run_at 5 commits)
    ∷ enqueues (event_of token) (run_at 2 (unanswered true))
    ∷ enqueues (event_of token) (run_at 1 commits)
    ∷ []

abbrev after_all : List Operation → List Row
after_all [] = []
after_all (o ∷ os) = perform backend o (after_all os)

reached_after : (os : List Operation) → Reached backend (after_all os)
reached_after [] = created
reached_after (o ∷ os) = performed o (reached_after os)

Reached-IsTable_example : IsTable (after_all late_release)
Reached-IsTable_example =
    Reached-IsTable backend (after_all late_release) (reached_after late_release)

abbrev waiting : List Row
waiting = new_row token token 1 ∷ []

abbrev durable_receipt : Envelope → Result Receipt Failure
durable_receipt e = ok (record { event_id = e.id; durable = true })

dispatch-IsDispatched_example :
    IsDispatched durable_receipt 6
      (claim backend token (run_at 5 commits) waiting)
      waiting
      (dispatch backend false token durable_receipt (run_at 5 commits) (run_at 6 commits) waiting).0
      (dispatch backend false token durable_receipt (run_at 5 commits) (run_at 6 commits) waiting).1
dispatch-IsDispatched_example =
    dispatch-IsDispatched backend false token durable_receipt (run_at 5 commits) (run_at 6 commits)
      waiting

-- The handler keeps the identifiers of the events that it handled.
abbrev remember : Envelope → List Text → Result (Unit {0}) Failure × List Text
remember e d = (ok tt, e.id ∷ d)

abbrev seen_in : Text → List Text → ℕ
seen_in id [] = 0
seen_in id (t ∷ ts) = (if same t id then 1 else 0) + seen_in id ts

-- The members of the only event that this JSON can write.
abbrev payload_members : Props
payload_members = prop (codes "v") (number (nat 1)) (
    prop (codes "id") (string token) (
      prop (codes "type") (string (codes "a.v1")) (
        prop (codes "occurred_at_ms") (number (nat 5))
          (prop (codes "work") (work_out work) (prop (codes "payload") (object end) end)))))

abbrev only_json : Json
only_json = record {
  stringify = λ v. codes "event";
  parse_bytes = λ t. some (object payload_members);
}

abbrev only_event : Envelope
only_event = record { id = token; raw = codes "event"; work = work }

only_id : id_in (field "id" payload_members) ≡ some token
unfolding id_in field parse ◌is◌ same matches
only_id = refl

only_work : work_in (field "work" payload_members) ≡ some work
unfolding work_in field ◌is◌ same id_in parse matches only_keys work_out attribution_in
    attribution_out restore_work validate_work valid_id operation valid_operation check_causation
    check_depth check_replay attribution actor_out ref_out replay_out
only_work = refl

only_normalized : normalized_value token work payload_members ≡ object payload_members
unfolding normalized_value set_prop ◌is◌ same
only_normalized = refl

some_value : {A : Type 0} (a b : A) → some a ≡ some b → a ≡ b
some_value a b h = ap (λ o. elim o [ none ↦ a | some x ↦ x ]) h

only_normalized_lem :
    (w : Props) (id : Text) (c : WorkContext)
    → payload_members ≡ w
    → id_in (field "id" w) ≡ some id
    → work_in (field "work" w) ≡ some c
    → object payload_members ≡ normalized_value id c w
only_normalized_lem w id c e i k =
    let here : id_in (field "id" payload_members) ≡ some id =
      ap (λ (x : Props). id_in (field "id" x)) e ∙ i in
    let there : work_in (field "work" payload_members) ≡ some c =
      ap (λ (x : Props). work_in (field "work" x)) e ∙ k in
    let same_id : token ≡ id = some_value token id (sym only_id ∙ here) in
    let same_work : work ≡ c = some_value work c (sym only_work ∙ there) in
    sym only_normalized
    ∙ ap (λ (x : Text). normalized_value x work payload_members) same_id
    ∙ ap (λ (x : WorkContext). normalized_value id x payload_members) same_work
    ∙ ap (normalized_value id c) e

abbrev members_of : Value → Props
members_of (object ps) = ps
members_of _ = end

only_json-IsJson : IsJson only_json
only_json-IsJson raw w id c p i k = ap some (
    only_normalized_lem w id c (ap members_of (some_value (object payload_members) (object w) p)) i
      k)

only_decode : decode_envelope only_json (codes "event") ≡ ok only_event
unfolding decode_envelope read_envelope valid_head has_key_named ◌is◌ field dotted id_in parse
    matches work_in work_out only_keys ref_out replay_out attribution_in attribution_out actor_out
    same normalized_value set_prop attribution operation valid_id valid_operation check_causation
    check_depth check_replay restore_work validate_work
only_decode = refl

decode_envelope-again_example : decode_envelope only_json (codes "event") ≡ ok only_event
decode_envelope-again_example =
    decode_envelope-again only_json (codes "event") only_event only_json-IsJson only_decode

abbrev json_backend : Backend
json_backend = record {
  id_less = λ s t. ltb (length s) (length t);
  same_json = same;
  decode = decode_envelope only_json;
}

remember-IsHandler : IsHandler json_backend remember seen_in
remember-IsHandler e d id h = omega arith

abbrev published : Run → MailOperation json_backend remember
published run = publishes (codes "event") only_event only_decode run

-- The event is published and consumed twice.
abbrev both_times : List Row × List Text
both_times = perform_mail json_backend remember (consumes (run_at 200 commits)) (
    perform_mail json_backend remember (published (run_at 150 commits)) (
      perform_mail json_backend remember (consumes (run_at 2 (unanswered true)))
        (perform_mail json_backend remember (published (run_at 1 commits)) ([], []))))

both_times_reached : MailReached json_backend remember [] both_times
both_times_reached = mail_performed (consumes (run_at 200 commits)) (
    mail_performed (published (run_at 150 commits)) (
      mail_performed (consumes (run_at 2 (unanswered true)))
        (mail_performed (published (run_at 1 commits)) mail_created)))

handled_at_most_once_example :
    (seen_in token both_times.1 ≡ count_processed token both_times.0)
    × (seen_in token both_times.1 ≤ 1)
handled_at_most_once_example =
    handled_at_most_once json_backend remember seen_in only_json [] both_times (λ raw. refl)
      only_json-IsJson remember-IsHandler (λ id. refl) both_times_reached token
