-- ===== src/Outbound/Receiving.antt =====
-- What a response holds (src/shared/httpclient/index.ts).
use mathlib.Core.List.{append-nil, append_assoc}
use modular_hx_fastapi.Common.{
  Bool, Bool-cases, List, Option, Text, [], all, ap, arith, false, inl, inr, length, length-append,
  ltb, none, refl, some, subst, sym, true, ℕ, ◌++◌, ◌+◌, ◌∙◌, ◌∷◌, ◌≡◌, ◌≤◌,
}
use modular_hx_fastapi.Errors.{Failure, Result, err, invalid, ok, unavailable}
use modular_hx_fastapi.Outbound.Requests.{client_failure, text_or_empty}
use modular_hx_fastapi.Outbound.Exchanges.{
  ClientResponse, Exchange, Occurrence, aborts, arrives, bad_end, breaks, broken_failure,
  ended_answer, ends, expires, occur, occur_all, settle_answer, take_chunk, throws,
}

-- The bytes of the chunks, in order.
abbrev pub received : List Occurrence → Text
received [] = []
received (arrives chunk ∷ os) = chunk ++ received os
received (_ ∷ os) = received os

-- An occurrence that does not answer the request by itself.
abbrev pub is_calm : Occurrence → Bool
is_calm (arrives chunk) = true
is_calm expires = true
is_calm aborts = true
is_calm _ = false

module _ (max : ℕ) where
  occur_answered :
      (o : Occurrence) (x : Exchange) (r : Result ClientResponse Failure)
      → x.answer ≡ some r
      → (occur max o x).answer ≡ some r
  unfolding occur take_chunk
  occur_answered (arrives chunk) x r h = elim (Bool-cases (ltb max (x.size + length chunk))) [
    | inl e ↦ ground arith
    | inr e ↦ ground arith
  ]
  occur_answered breaks x r h = ground arith
  occur_answered (ends status complete type) x r h = ground arith
  occur_answered throws x r h = ground arith
  occur_answered expires x r h = h
  occur_answered aborts x r h = h

  pub answered_stays :
      (os : List Occurrence) (x : Exchange) (r : Result ClientResponse Failure)
      → x.answer ≡ some r
      → (occur_all max os x).answer ≡ some r
  answered_stays [] x r h = h
  answered_stays (o ∷ os) x r h = answered_stays os (occur max o x) r (occur_answered o x r h)

  -- What was kept of an open request is all that arrived.
  pub record IsOpen (x : Exchange) : Type 0 where
    pub unanswered : x.answer ≡ none
    pub counted : x.size ≡ length x.kept
    pub bounded : x.size ≤ max

  -- The occurrences hold an end of the response before which only chunks arrived, the timer fired or the
  -- controller was aborted, and the response is what arrived until then, after what was kept before.
  pub record IsResponse (kept : Text) (os : List Occurrence) (r : ClientResponse) : Type 0 where
    pub before : List Occurrence
    pub after : List Occurrence
    pub type : Option Text
    pub split : os ≡ before ++ (ends r.status true type ∷ after)
    pub calm : all is_calm before ≡ true
    pub body : r.body ≡ kept ++ received before
    pub small : length r.body ≤ max
    pub status : bad_end r.status true ≡ false
    pub content_type : r.content_type ≡ text_or_empty type

  later-IsResponse :
      (o : Occurrence) (kept chunk : Text) (os : List Occurrence) (r : ClientResponse)
      → is_calm o ≡ true
      → ((rest : List Occurrence) → received (o ∷ rest) ≡ chunk ++ received rest)
      → IsResponse (kept ++ chunk) os r
      → IsResponse kept (o ∷ os) r
  later-IsResponse o kept chunk os r calm arrived i = record {
    before = o ∷ i.before;
    after = i.after;
    type = i.type;
    split = ap (λ (t : List Occurrence). o ∷ t) i.split;
    calm = ground (arith, i.calm);
    body =
        i.body
        ∙ append_assoc kept chunk (received i.before)
        ∙ ap (λ (t : Text). kept ++ t) (sym (arrived i.before));
    small = i.small;
    status = i.status;
    content_type = i.content_type;
  }

  refused_answer :
      (os : List Occurrence) (x : Exchange) (f : Failure) (r : ClientResponse)
      → x.answer ≡ some (err f)
      → (occur_all max os x).answer ≡ some (ok r)
      → ⊥
  refused_answer os x f r h k = let stays = answered_stays os x (err f) h in ground arith

  pub chunk-IsOpen :
      (chunk : Text) (x : Exchange)
      → IsOpen x
      → ltb max (x.size + length chunk) ≡ false
      → (occur max (arrives chunk) x
          ≡ record x { size = x.size + length chunk; kept = x.kept ++ chunk })
        × IsOpen (record x { size = x.size + length chunk; kept = x.kept ++ chunk })
  unfolding occur take_chunk
  chunk-IsOpen chunk x i h = (
    ground arith,
    record {
      unanswered = i.unanswered;
      counted = ground (arith, i.counted, length-append x.kept chunk);
      bounded = ground arith;
    },
  )

  large_answer :
      (chunk : Text) (x : Exchange)
      → IsOpen x
      → ltb max (x.size + length chunk) ≡ true
      → (occur max (arrives chunk) x).answer
        ≡ some (err (client_failure unavailable "httpclient.response_too_large"))
  unfolding occur take_chunk
  large_answer chunk x i h = ground (arith, i.unanswered)

  quiet-IsResponse :
      (o : Occurrence) (kept : Text) (os : List Occurrence) (r : ClientResponse)
      → is_calm o ≡ true
      → ((rest : List Occurrence) → received (o ∷ rest) ≡ received rest)
      → IsResponse kept os r
      → IsResponse kept (o ∷ os) r
  quiet-IsResponse o kept os r calm silent i = record {
    before = o ∷ i.before;
    after = i.after;
    type = i.type;
    split = ap (λ (t : List Occurrence). o ∷ t) i.split;
    calm = ground (arith, i.calm);
    body = i.body ∙ ap (λ (t : Text). kept ++ t) (sym (silent i.before));
    small = i.small;
    status = i.status;
    content_type = i.content_type;
  }

  pub settled_open :
      (a : Result ClientResponse Failure) (x : Exchange)
      → IsOpen x
      → settle_answer x.answer a ≡ some a
  settled_open a x i =
      ap (λ (b : Option (Result ClientResponse Failure)). settle_answer b a) i.unanswered

  ended-IsResponse :
      (status : ℕ) (complete : Bool) (type : Option Text) (os : List Occurrence) (x : Exchange)
      (r : ClientResponse)
      → IsOpen x
      → (occur_all max (ends status complete type ∷ os) x).answer
        ≡ some (ended_answer status complete type x.kept)
      → (occur_all max (ends status complete type ∷ os) x).answer ≡ some (ok r)
      → IsResponse x.kept (ends status complete type ∷ os) r
  ended-IsResponse status complete type os x r i e h = elim (Bool-cases (bad_end status complete)) [
    | inl b ↦ absurd (ground arith)
    | inr b ↦
        let made : record { status = status; body = x.kept; content_type = text_or_empty type }
            ≡ r =
          ground arith in
        let whole : complete ≡ true = ground arith in
        subst (IsResponse x.kept (ends status complete type ∷ os)) made (record {
          before = [];
          after = os;
          type = type;
          split = ap (λ (c : Bool). ends status c type ∷ os) whole;
          calm = refl;
          body = sym (append-nil x.kept);
          small = ground (arith, i.counted, i.bounded);
          status = ap (bad_end status) (sym whole) ∙ b;
          content_type = refl;
        })
  ]

  pub answered-IsResponse :
      (os : List Occurrence) (x : Exchange) (r : ClientResponse)
      → IsOpen x
      → (occur_all max os x).answer ≡ some (ok r)
      → IsResponse x.kept os r
  unfolding occur
  answered-IsResponse [] x r i h = absurd (ground (arith, i.unanswered))
  answered-IsResponse (arrives chunk ∷ os) x r i h =
      elim (Bool-cases (ltb max (x.size + length chunk))) [
        | inl e ↦
            absurd
              (refused_answer os (occur max (arrives chunk) x) _ r (large_answer chunk x i e) h)
        | inr e ↦
            let (same_state, open_state) = chunk-IsOpen chunk x i e in
            let grown = record x { size = x.size + length chunk; kept = x.kept ++ chunk } in
            let later : (occur_all max os grown).answer ≡ some (ok r) =
              ap (λ (y : Exchange). (occur_all max os y).answer) (sym same_state) ∙ h in
            later-IsResponse (arrives chunk) x.kept chunk os r refl (λ rest. refl)
              (answered-IsResponse os grown r open_state later)
      ]
  answered-IsResponse (breaks ∷ os) x r i h =
      let f = broken_failure x.timed_out x.aborted in
      absurd (refused_answer os (occur max breaks x) f r (settled_open (err f) x i) h)
  answered-IsResponse (throws ∷ os) x r i h =
      let f = client_failure invalid "httpclient.request" in
      absurd (refused_answer os (occur max throws x) f r (settled_open (err f) x i) h)
  answered-IsResponse (expires ∷ os) x r i h =
      let still : IsOpen (record x { timed_out = true; aborted = true }) = record {
        unanswered = i.unanswered;
        counted = i.counted;
        bounded = i.bounded;
      } in
      quiet-IsResponse expires x.kept os r refl (λ rest. refl) (answered-IsResponse os _ r still h)
  answered-IsResponse (aborts ∷ os) x r i h =
      let still : IsOpen (record x { aborted = true }) = record {
        unanswered = i.unanswered;
        counted = i.counted;
        bounded = i.bounded;
      } in
      quiet-IsResponse aborts x.kept os r refl (λ rest. refl) (answered-IsResponse os _ r still h)
  answered-IsResponse (ends status complete type ∷ os) x r i h =
      ended-IsResponse status complete type os x r i
        (answered_stays os (occur max (ends status complete type) x)
          (ended_answer status complete type x.kept)
          (settled_open (ended_answer status complete type x.kept) x i))
        h
