-- ===== src/Outbound/Exchanges.antt =====
-- src/shared/httpclient/index.ts: one request as a state that the events of its streams, its timer and its
-- controller move, and the client that shares its requests.
use modular_hx_fastapi.Common.{
  Bool, List, Option, Text, [], false, if◌then◌else◌, length, ltb, map, none, not, some, suc, true,
  zero, ℕ, ◌++◌, ◌+◌, ◌||◌, ◌∷◌,
}
use modular_hx_fastapi.Errors.{Failure, Result, canceled, err, invalid, ok, timeout, unavailable}
use modular_hx_fastapi.Outbound.Requests.{
  Base, ClientRequest, Outgoing, client_failure, prepare, text_or_empty,
}

pub record ClientResponse : Type 0 where
  pub status : ℕ
  pub body : Text
  pub content_type : Text

pub record Exchange : Type 0 where
  -- The chunks that were kept, and the count of all bytes.
  pub kept : Text
  pub size : ℕ
  pub timed_out : Bool
  -- Whether the controller's signal is aborted, and whether the streams were destroyed.
  pub aborted : Bool
  pub destroyed : Bool
  pub answer : Option (Result ClientResponse Failure)

-- What happens to a request: a chunk arrives, a stream fails, the response ends with its status, its
-- completeness and its content type, the request throws, the timer fires, or the controller is aborted.
pub data Occurrence : Type 0 where
  arrives : Text → Occurrence
  breaks : Occurrence
  ends : ℕ → Bool → Option Text → Occurrence
  throws : Occurrence
  expires : Occurrence
  aborts : Occurrence

abbrev pub sent_exchange : Exchange
sent_exchange = record {
  kept = [];
  size = 0;
  timed_out = false;
  aborted = false;
  destroyed = false;
  answer = none;
}

-- The first value of the promise stays.
abbrev pub settle_answer :
    Option (Result ClientResponse Failure)
    → Result ClientResponse Failure
    → Option (Result ClientResponse Failure)
settle_answer none r = some r
settle_answer (some a) r = some a

abbrev pub resolve : Result ClientResponse Failure → Exchange → Exchange
resolve r x = record x { answer = settle_answer x.answer r }

abbrev pub broken_failure : Bool → Bool → Failure
broken_failure true aborted = client_failure timeout "httpclient.timeout"
broken_failure false true = client_failure canceled "httpclient.canceled"
broken_failure false false = client_failure unavailable "httpclient.network"

abbrev pub bad_end : ℕ → Bool → Bool
bad_end status complete = ltb status 200 || ltb 599 status || not complete

abbrev pub ended_answer : ℕ → Bool → Option Text → Text → Result ClientResponse Failure
ended_answer status complete type body =
    if bad_end status complete
    then err (client_failure unavailable "httpclient.protocol")
    else ok (record { status = status; body = body; content_type = text_or_empty type })

-- A chunk is counted, and kept unless the response has become too large.
unfoldable pub take_chunk : ℕ → Text → Exchange → Exchange
take_chunk max_response chunk x =
    let size = x.size + length chunk in
    elim (ltb max_response size) [
      | true ↦
          resolve (err (client_failure unavailable "httpclient.response_too_large"))
            (record x { size = size; destroyed = true })
      | false ↦ record x { size = size; kept = x.kept ++ chunk }
    ]

unfoldable pub occur : ℕ → Occurrence → Exchange → Exchange
occur max_response (arrives chunk) x = take_chunk max_response chunk x
occur max_response breaks x = resolve (err (broken_failure x.timed_out x.aborted)) x
occur max_response (ends status complete type) x =
    resolve (ended_answer status complete type x.kept) x
occur max_response throws x = resolve (err (client_failure invalid "httpclient.request")) x
occur max_response expires x = record x { timed_out = true; aborted = true }
occur max_response aborts x = record x { aborted = true }

abbrev pub occur_all : ℕ → List Occurrence → Exchange → Exchange
occur_all max_response [] x = x
occur_all max_response (o ∷ os) x = occur_all max_response os (occur max_response o x)

pub record Client : Type 0 where
  pub closed : Bool
  pub active : List Exchange

abbrev pub created_client : Client
created_client = record { closed = false; active = [] }

abbrev pub start_call : Result Outgoing Failure → Client → Client
start_call (err f) c = c
start_call (ok o) c = record c { active = sent_exchange ∷ c.active }

-- `Client.do` up to its await.
unfoldable pub call : Base → Bool → ClientRequest → Client → Client
call b aborted r c = start_call (prepare b c.closed (length c.active) aborted r) c

unfoldable pub change_at : ℕ → (Exchange → Exchange) → List Exchange → List Exchange
change_at n change [] = []
change_at zero change (x ∷ xs) = change x ∷ xs
change_at (suc n) change (x ∷ xs) = x ∷ change_at n change xs

abbrev pub is_settled : Exchange → Bool
is_settled x = elim x.answer [ none ↦ false | some r ↦ true ]

-- The `finally` of a request that is answered takes it from the active ones.
unfoldable pub leave_at : ℕ → List Exchange → List Exchange
leave_at n [] = []
leave_at zero (x ∷ xs) = if is_settled x then xs else x ∷ xs
leave_at (suc n) (x ∷ xs) = x ∷ leave_at n xs

-- `Client.close`.
unfoldable pub close_client : Client → Client
close_client c = record {
  closed = true;
  active = map (λ (x : Exchange). record x { aborted = true }) c.active;
}
