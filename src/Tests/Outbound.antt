-- ===== src/Tests/Outbound.antt =====
-- Outgoing requests of src/shared/httpclient on concrete occurrences.
use modular_hx_fastapi.Common.{List, [], codes, false, none, some, true, ◌↔◌, ◌∷◌, ◌≡◌}
use modular_hx_fastapi.Errors.{ok}
use modular_hx_fastapi.Outbound.{
  Base, Client, ClientRequest, ClientResponse, Occurrence, aborts, arrives, breaks, created_client,
  ends, occur_all, sent_exchange,
}
use modular_hx_fastapi.Outbound.Receiving.{IsResponse}
use modular_hx_fastapi.Outbound.Responding.{occur_all_iff}
use modular_hx_fastapi.Outbound.Sharing.{
  IsClient, Reached, Reached-IsClient, Turn, calls, closes, created, happens, leaves, take_turn,
  turned,
}

-- Two chunks and an end, and an error of the stream afterwards.
abbrev two_chunks : List Occurrence
two_chunks =
    arrives (codes "ab")
    ∷ aborts
    ∷ arrives (codes "c")
    ∷ ends 404 true (some (codes "text/plain"))
    ∷ breaks
    ∷ []

abbrev not_found_response : ClientResponse
not_found_response = record { status = 404; body = codes "abc"; content_type = codes "text/plain" }

occur_all_iff_example :
    ((occur_all 3 two_chunks sent_exchange).answer ≡ some (ok not_found_response))
    ↔ IsResponse 3 [] two_chunks not_found_response
occur_all_iff_example = occur_all_iff 3 two_chunks not_found_response

abbrev base : Base
base = record {
  max_request = 10;
  max_response = 3;
  origin = codes "http://a";
  bearer = none;
  origin_of = λ p. some (codes "http://a");
}

abbrev get_root : ClientRequest
get_root = record { method = codes "GET"; path = codes "/"; body = []; trace = none }

-- Two requests, a response that is too large, and the end of the client.
abbrev turns : List Turn
turns =
    calls false get_root
    ∷ closes
    ∷ leaves 1
    ∷ happens 1 (arrives (codes "abcd"))
    ∷ calls false get_root
    ∷ calls false get_root
    ∷ []

abbrev after_turns : List Turn → Client
after_turns [] = created_client
after_turns (t ∷ ts) = take_turn base t (after_turns ts)

reached_turns : (ts : List Turn) → Reached base (after_turns ts)
reached_turns [] = created
reached_turns (t ∷ ts) = turned t (reached_turns ts)

Reached-IsClient_example : IsClient base (after_turns turns)
Reached-IsClient_example = Reached-IsClient base (after_turns turns) (reached_turns turns)
