-- ===== src/Outbound/Sharing.antt =====
-- The requests that a client has at one time (src/shared/httpclient/index.ts).
use modular_hx_fastapi.Common.{
  Bool, Bool-cases, List, Text, [], ap, arith, false, inl, inr, length, length-append, ltb, map,
  refl, subst, suc, true, zero, ℕ, ◌++◌, ◌+◌, ◌<◌, ◌∷◌, ◌≡◌, ◌≤◌,
}
use modular_hx_fastapi.Errors.{Result-cases, err, ok, unavailable}
use modular_hx_fastapi.Outbound.Requests.{Base, ClientRequest, Outgoing, client_failure, prepare}
use modular_hx_fastapi.Outbound.Exchanges.{
  Client, Exchange, Occurrence, aborts, arrives, breaks, call, change_at, close_client,
  created_client, ends, expires, is_settled, leave_at, occur, resolve, sent_exchange, take_chunk,
  throws,
}

-- What happens to a client: it is called, something happens to one of its requests, the code of an answered
-- request leaves, or it is closed.
pub data Turn : Type 0 where
  calls : Bool → ClientRequest → Turn
  happens : ℕ → Occurrence → Turn
  leaves : ℕ → Turn
  closes : Turn

unfoldable pub take_turn : Base → Turn → Client → Client
take_turn b (calls aborted r) c = call b aborted r c
take_turn b (happens n o) c = record c { active = change_at n (occur b.max_response o) c.active }
take_turn b (leaves n) c = record c { active = leave_at n c.active }
take_turn b closes c = close_client c

-- The states of a client that turns lead to.
pub data Reached (b : Base) : Client → Type 0 where
  created : Reached b created_client
  turned : (t : Turn) {c : Client} → Reached b c → Reached b (take_turn b t c)

-- The bytes kept of a request are counted and within the limit, and it is aborted if the client is closed.
pub record IsKept (max : ℕ) (closed : Bool) (x : Exchange) : Type 0 where
  pub counted : length x.kept ≤ x.size
  pub bounded : length x.kept ≤ max
  pub ended : closed ≡ true → x.aborted ≡ true

abbrev pub AllKept : ℕ → Bool → List Exchange → Type 0
AllKept max closed [] = Unit
AllKept max closed (x ∷ xs) = IsKept max closed x × AllKept max closed xs

pub record IsClient (b : Base) (c : Client) : Type 0 where
  pub few : length c.active ≤ 64
  pub kept : AllKept b.max_response c.closed c.active

module _ (max : ℕ) (closed : Bool) where
  take_chunk-IsKept :
      (chunk : Text) (x : Exchange)
      → IsKept max closed x
      → IsKept max closed (take_chunk max chunk x)
  unfolding take_chunk
  take_chunk-IsKept chunk x i = elim (Bool-cases (ltb max (x.size + length chunk))) [
    | inl e ↦
        let there : resolve (err (client_failure unavailable "httpclient.response_too_large"))
              (record x { size = x.size + length chunk; destroyed = true })
            ≡ take_chunk max chunk x =
          ground arith in
        subst (IsKept max closed) there
          (record { counted = ground (arith, i.counted); bounded = i.bounded; ended = i.ended })
    | inr e ↦
        let there : record x { size = x.size + length chunk; kept = x.kept ++ chunk }
            ≡ take_chunk max chunk x =
          ground arith in
        subst (IsKept max closed) there (record {
          counted = ground (arith, i.counted, length-append x.kept chunk);
          bounded = ground (arith, i.counted, length-append x.kept chunk);
          ended = i.ended;
        })
  ]

  occur-IsKept :
      (o : Occurrence) (x : Exchange) → IsKept max closed x → IsKept max closed (occur max o x)
  unfolding occur
  occur-IsKept (arrives chunk) x i = take_chunk-IsKept chunk x i
  occur-IsKept breaks x i = record { counted = i.counted; bounded = i.bounded; ended = i.ended }
  occur-IsKept (ends status complete type) x i = record {
    counted = i.counted;
    bounded = i.bounded;
    ended = i.ended;
  }
  occur-IsKept throws x i = record { counted = i.counted; bounded = i.bounded; ended = i.ended }
  occur-IsKept expires x i = record { counted = i.counted; bounded = i.bounded; ended = λ e. refl }
  occur-IsKept aborts x i = record { counted = i.counted; bounded = i.bounded; ended = λ e. refl }

  change_at-AllKept :
      (n : ℕ) (o : Occurrence) (xs : List Exchange)
      → AllKept max closed xs
      → AllKept max closed (change_at n (occur max o) xs)
  unfolding change_at
  change_at-AllKept n o [] i = tt
  change_at-AllKept zero o (x ∷ xs) (i, later) = (occur-IsKept o x i, later)
  change_at-AllKept (suc n) o (x ∷ xs) (i, later) = (i, change_at-AllKept n o xs later)

  leave_at-AllKept :
      (n : ℕ) (xs : List Exchange) → AllKept max closed xs → AllKept max closed (leave_at n xs)
  unfolding leave_at
  leave_at-AllKept n [] i = tt
  leave_at-AllKept zero (x ∷ xs) (i, later) = elim (Bool-cases (is_settled x)) [
    | inl e ↦
        let there : xs ≡ leave_at 0 (x ∷ xs) = ground arith in
        subst (AllKept max closed) there later
    | inr e ↦
        let there : x ∷ xs ≡ leave_at 0 (x ∷ xs) = ground arith in
        subst (AllKept max closed) there (i, later)
  ]
  leave_at-AllKept (suc n) (x ∷ xs) (i, later) = (i, leave_at-AllKept n xs later)

  close-AllKept :
      (xs : List Exchange)
      → AllKept max closed xs
      → AllKept max true (map (λ (x : Exchange). record x { aborted = true }) xs)
  close-AllKept [] i = tt
  close-AllKept (x ∷ xs) (i, later) = (
    record { counted = i.counted; bounded = i.bounded; ended = λ e. refl },
    close-AllKept xs later,
  )

length-change_at :
    (n : ℕ) (f : Exchange → Exchange) (xs : List Exchange) → length (change_at n f xs) ≡ length xs
unfolding change_at
length-change_at n f [] = refl
length-change_at zero f (x ∷ xs) = refl
length-change_at (suc n) f (x ∷ xs) = ap suc (length-change_at n f xs)

length-leave_at : (n : ℕ) (xs : List Exchange) → length (leave_at n xs) ≤ length xs
unfolding leave_at
length-leave_at n [] = omega arith
length-leave_at zero (x ∷ xs) = elim (Bool-cases (is_settled x)) [
  | inl e ↦ ground arith
  | inr e ↦ ground arith
]
length-leave_at (suc n) (x ∷ xs) = omega (arith, length-leave_at n xs)

length-close :
    (xs : List Exchange)
    → length (map (λ (x : Exchange). record x { aborted = true }) xs) ≡ length xs
length-close [] = refl
length-close (x ∷ xs) = ap suc (length-close xs)

prepare_open :
    (b : Base) (closed : Bool) (active : ℕ) (aborted : Bool) (r : ClientRequest) (o : Outgoing)
    → prepare b closed active aborted r ≡ ok o
    → (closed ≡ false) × (active < 64)
unfolding prepare
prepare_open b closed active aborted r o h = ground arith

sent-IsKept : (max : ℕ) (closed : Bool) → closed ≡ false → IsKept max closed sent_exchange
sent-IsKept max closed h = record {
  counted = omega arith;
  bounded = omega arith;
  ended = λ e. absurd (ground arith);
}

call-IsClient :
    (b : Base) (aborted : Bool) (r : ClientRequest) (c : Client)
    → IsClient b c
    → IsClient b (call b aborted r c)
unfolding call
call-IsClient b aborted r c i =
    elim (Result-cases (prepare b c.closed (length c.active) aborted r)) [
      | inr (f, e) ↦ let there : c ≡ call b aborted r c = ground arith in subst (IsClient b) there i
      | inl (o, e) ↦
          let (opened, room) = prepare_open b c.closed (length c.active) aborted r o e in
          let there : record c { active = sent_exchange ∷ c.active } ≡ call b aborted r c =
            ground arith in
          subst (IsClient b) there (record {
            few = omega (arith, room);
            kept = (sent-IsKept b.max_response c.closed opened, i.kept);
          })
    ]

take_turn-IsClient :
    (b : Base) (t : Turn) (c : Client) → IsClient b c → IsClient b (take_turn b t c)
unfolding take_turn close_client
take_turn-IsClient b (calls aborted r) c i = call-IsClient b aborted r c i
take_turn-IsClient b (happens n o) c i = record {
  few = ground (arith, i.few, length-change_at n (occur b.max_response o) c.active);
  kept = change_at-AllKept b.max_response c.closed n o c.active i.kept;
}
take_turn-IsClient b (leaves n) c i = record {
  few = ground (arith, i.few, length-leave_at n c.active);
  kept = leave_at-AllKept b.max_response c.closed n c.active i.kept;
}
take_turn-IsClient b closes c i = record {
  few = ground (arith, i.few, length-close c.active);
  kept = close-AllKept b.max_response c.closed c.active i.kept;
}

-- In every state of a client, whatever happens in any order, there are at most 64 requests, the bytes that are
-- kept of each are within the limit of a response, and once it is closed every one of them is aborted.
pub Reached-IsClient : (b : Base) (c : Client) → Reached b c → IsClient b c
Reached-IsClient b _ created = record { few = omega arith; kept = tt }
Reached-IsClient b _ (turned t {c} r) = take_turn-IsClient b t c (Reached-IsClient b c r)
