-- ===== src/Outbound/Responding.antt =====
-- Exactly which occurrences make a response (src/shared/httpclient/index.ts).
use mathlib.Core.List.{append-nil, append_assoc}
use modular_hx_fastapi.Common.{
  List, Option, Text, [], all, ap, arith, false, length, length-append, refl, some, subst, sym,
  true, ℕ, ◌++◌, ◌+◌, ◌↔◌, ◌∙◌, ◌∷◌, ◌≡◌, ◌≤◌,
}
use modular_hx_fastapi.Errors.{ok}
use modular_hx_fastapi.Outbound.Requests.{text_or_empty}
use modular_hx_fastapi.Outbound.Exchanges.{
  ClientResponse, Exchange, Occurrence, aborts, arrives, bad_end, breaks, ended_answer, ends,
  expires, occur, occur_all, sent_exchange, throws,
}
use modular_hx_fastapi.Outbound.Receiving.{
  IsOpen, IsResponse, answered-IsResponse, answered_stays, chunk-IsOpen, is_calm, received,
  settled_open,
}

module _ (max : ℕ) where
  occur_all-append :
      (os rest : List Occurrence) (x : Exchange)
      → occur_all max (os ++ rest) x ≡ occur_all max rest (occur_all max os x)
  occur_all-append [] rest x = refl
  occur_all-append (o ∷ os) rest x = occur_all-append os rest (occur max o x)

  -- Calm occurrences leave a request open that has kept all that arrived.
  abbrev IsWaiting : Text → Exchange → Type 0
  IsWaiting kept x = IsOpen max x × (x.kept ≡ kept)

  calm-IsWaiting :
      (os : List Occurrence) (x : Exchange)
      → IsOpen max x
      → all is_calm os ≡ true
      → x.size + length (received os) ≤ max
      → IsWaiting (x.kept ++ received os) (occur_all max os x)
  unfolding occur
  calm-IsWaiting [] x i c small = (i, sym (append-nil x.kept))
  calm-IsWaiting (arrives chunk ∷ os) x i c small =
      let sum = length-append chunk (received os) in
      let (same_state, open_state) = chunk-IsOpen max chunk x i (ground (arith, sum)) in
      let grown = record x { size = x.size + length chunk; kept = x.kept ++ chunk } in
      let (later, kept) = calm-IsWaiting os grown open_state (ground arith) (ground (arith, sum)) in
      subst (λ (y : Exchange). IsWaiting (x.kept ++ (chunk ++ received os)) (occur_all max os y))
        (sym same_state) (later, kept ∙ append_assoc x.kept chunk (received os))
  calm-IsWaiting (breaks ∷ os) x i c small = absurd (ground arith)
  calm-IsWaiting (throws ∷ os) x i c small = absurd (ground arith)
  calm-IsWaiting (ends status complete type ∷ os) x i c small = absurd (ground arith)
  calm-IsWaiting (expires ∷ os) x i c small =
      let still : IsOpen max (record x { timed_out = true; aborted = true }) = record {
        unanswered = i.unanswered;
        counted = i.counted;
        bounded = i.bounded;
      } in
      calm-IsWaiting os _ still c small
  calm-IsWaiting (aborts ∷ os) x i c small =
      let still : IsOpen max (record x { aborted = true }) = record {
        unanswered = i.unanswered;
        counted = i.counted;
        bounded = i.bounded;
      } in
      calm-IsWaiting os _ still c small

  sent-IsOpen : IsOpen max sent_exchange
  sent-IsOpen = record { unanswered = refl; counted = refl; bounded = omega arith }

  end-answers :
      (status : ℕ) (type : Option Text) (after : List Occurrence) (x : Exchange) (kept : Text)
      → IsWaiting kept x
      → bad_end status true ≡ false
      → (occur_all max (ends status true type ∷ after) x).answer
        ≡ some (ok (record { status = status; body = kept; content_type = text_or_empty type }))
  unfolding occur
  end-answers status type after x kept (i, k) good =
      let answer = ended_answer status true type x.kept in
      answered_stays max after (occur max (ends status true type) x) answer
        (settled_open max answer x i)
      ∙ ap (λ (t : Text). some (ended_answer status true type t)) k
      ∙ ap some (good_answer status type kept good)
    where
      good_answer :
          (status : ℕ) (type : Option Text) (kept : Text)
          → bad_end status true ≡ false
          → ended_answer status true type kept
            ≡ ok (record { status = status; body = kept; content_type = text_or_empty type })
      good_answer status type kept good = ground arith

  response_of :
      (os : List Occurrence) (r : ClientResponse)
      → IsResponse max [] os r
      → (occur_all max os sent_exchange).answer ≡ some (ok r)
  response_of os r i =
      let waiting =
        calm-IsWaiting i.before sent_exchange sent-IsOpen i.calm
          (ground (arith, i.body, i.small)) in
      ap (λ (t : List Occurrence). (occur_all max t sent_exchange).answer) i.split
      ∙ ap (λ (y : Exchange). y.answer)
          (occur_all-append i.before (ends r.status true i.type ∷ i.after) sent_exchange)
      ∙ end-answers r.status i.type i.after (occur_all max i.before sent_exchange)
          (received i.before) waiting i.status
      ∙ ap
          (λ (t : Text).
            some (ok (record { status = r.status; body = t; content_type = text_or_empty i.type })))
          (sym i.body)
      ∙ ap (λ (t : Text). some (ok (record { status = r.status; body = r.body; content_type = t })))
          (sym i.content_type)

  -- A request is answered with a response exactly if the response ends completely, with a status from 200 to
  -- 599, before anything breaks, and the bytes that arrived until then are within the limit; the response holds
  -- all of them. The timer and an abort do not answer by themselves.
  pub occur_all_iff :
      (os : List Occurrence) (r : ClientResponse)
      → ((occur_all max os sent_exchange).answer ≡ some (ok r)) ↔ IsResponse max [] os r
  occur_all_iff os r =
      (λ h. answered-IsResponse max os sent_exchange r sent-IsOpen h, λ i. response_of os r i)
