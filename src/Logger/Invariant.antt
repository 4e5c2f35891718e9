-- ===== src/Logger/Invariant.antt =====
-- What holds of a delivery between two transitions, and that the pump keeps it
-- (src/shared/logger/delivery.ts).
use mathlib.Core.List.{append_assoc}
use modular_hx_fastapi.Common.{
  Bool, Bool-cases, List, Option, Text, [], ap, arith, false, inl, inr, length, length-append, none,
  refl, some, subst, suc, sym, true, ℕ, ◌++◌, ◌+◌, ◌∙◌, ◌∷◌, ◌≡◌, ◌≤◌, ◌⊎◌,
}
use modular_hx_fastapi.Logger.Deliveries.{
  Delivery, Phase, Setup, create, drop_line, finished, flush, flushing, pump, push, refuses,
  waiting,
}

abbrev pub present : Option Text → Bool
present none = false
present (some t) = true

abbrev pub one : Bool → ℕ
one true = 1
one false = 0

abbrev pub is_finished : Phase → Bool
is_finished finished = true
is_finished _ = false

abbrev pub is_waiting : Phase → Bool
is_waiting waiting = true
is_waiting _ = false

-- The lines that are written, failed, queued or in flight.
abbrev pub spread : Delivery → ℕ
spread d = d.counts.written + d.counts.failed + length d.queue + one (present d.in_flight)

pub record IsDelivery (c : Setup) (ls : List Text) (d : Delivery) : Type 0 where
  -- The sink has been handed a prefix of the accepted lines, and the queue is the rest.
  pub order : d.handed ++ d.queue ≡ ls
  pub counted : d.counts.accepted ≡ length ls
  -- Nothing is lost; only a failed flush is counted besides the lines.
  pub low : length ls ≤ spread d
  pub high : spread d ≤ length ls + one (is_finished d.phase)
  pub busy : d.running ≡ present d.in_flight
  pub idle : d.running ≡ false → d.queue ≡ []
  pub bounded : length d.queue ≤ c.capacity
  pub flush_last : is_waiting d.phase ≡ false → (d.closed ≡ true) × (d.running ≡ false)
  pub flush_due : d.closed ≡ true → d.running ≡ false → is_waiting d.phase ≡ false

pub List-cases : (q : List Text) → (q ≡ []) ⊎ ((l : Text) × (r : List Text) × (q ≡ l ∷ r))
List-cases [] = inl refl
List-cases (l ∷ r) = inr (l, r, refl)

module _ (c : Setup) where
  pub create-IsDelivery : IsDelivery c [] create
  unfolding create
  create-IsDelivery = record {
    order = refl;
    counted = refl;
    low = ground arith;
    high = ground arith;
    busy = refl;
    idle = λ h. refl;
    bounded = ground arith;
    flush_last = λ h. absurd (ground arith);
    flush_due = λ h. absurd (ground arith);
  }

  pub refused-IsDelivery :
      (ls : List Text) (d : Delivery) → IsDelivery c ls d → IsDelivery c ls (drop_line d)
  unfolding drop_line
  refused-IsDelivery ls d i = record {
    order = i.order;
    counted = i.counted;
    low = i.low;
    high = i.high;
    busy = i.busy;
    idle = i.idle;
    bounded = i.bounded;
    flush_last = i.flush_last;
    flush_due = i.flush_due;
  }

  pub pushed-IsDelivery :
      (ls : List Text) (d : Delivery) (line : Text)
      → IsDelivery c ls d
      → d.running ≡ true
      → refuses c d line ≡ false
      → IsDelivery c (ls ++ line ∷ []) (push line d)
  unfolding push
  pushed-IsDelivery ls d line i r h =
      let grown = length-append ls (line ∷ []) in
      let longer = length-append d.queue (line ∷ []) in
      record {
        order =
            sym (append_assoc d.handed d.queue (line ∷ []))
            ∙ ap (λ (q : List Text). q ++ line ∷ []) i.order;
        counted = ground (arith, i.counted);
        low = ground (arith, i.low);
        high = ground (arith, i.high);
        busy = i.busy;
        idle = λ k. absurd (ground arith);
        bounded = ground arith;
        flush_last = i.flush_last;
        flush_due = i.flush_due;
      }

  -- What holds at the head of the pump's loop.
  abbrev pub IsPumping : List Text → Delivery → Type 0
  IsPumping ls d =
      (d.handed ++ d.queue ≡ ls)
      × (d.counts.accepted ≡ length ls)
      × (d.counts.written + d.counts.failed + length d.queue ≡ length ls)
      × (length d.queue ≤ suc c.capacity)
      × (is_waiting d.phase ≡ true)

  -- The flush is under way or over.
  ended-IsDelivery :
      (ls : List Text) (d : Delivery) (p : Phase)
      → IsPumping ls d
      → d.queue ≡ []
      → d.in_flight ≡ none
      → d.running ≡ false
      → d.closed ≡ true
      → is_waiting p ≡ false
      → IsDelivery c ls (record d { phase = p })
  ended-IsDelivery ls d p (o, a, n, b, w) e f r k g = record {
    order = o;
    counted = a;
    low = ground arith;
    high = ground arith;
    busy = ground arith;
    idle = λ h. e;
    bounded = ground arith;
    flush_last = λ h. (k, r);
    flush_due = λ h j. g;
  }

  pub flush-IsDelivery :
      (ls : List Text) (d : Delivery)
      → IsPumping ls d
      → d.queue ≡ []
      → d.in_flight ≡ none
      → d.running ≡ false
      → d.closed ≡ true
      → IsDelivery c ls (flush c d)
  unfolding flush
  flush-IsDelivery ls d p e f r k = elim (Bool-cases c.noop) [
    | inl noop ↦
        let same : record d { phase = finished } ≡ flush c d = ground arith in
        subst (λ (x : Delivery). IsDelivery c ls x) same
          (ended-IsDelivery ls d finished p e f r k refl)
    | inr sink ↦
        let same : record d { phase = flushing } ≡ flush c d = ground arith in
        subst (λ (x : Delivery). IsDelivery c ls x) same
          (ended-IsDelivery ls d flushing p e f r k refl)
  ]

  -- The pump waits for the sink.
  pumped-IsDelivery :
      (ls : List Text) (d : Delivery) (l : Text) (r : List Text)
      → IsPumping ls d
      → d.queue ≡ l ∷ r
      → IsDelivery c ls
          (record d { queue = r; running = true; in_flight = some l; handed = d.handed ++ l ∷ [] })
  pumped-IsDelivery ls d l r (o, a, n, b, w) e = record {
    order = append_assoc d.handed (l ∷ []) r ∙ ap (λ (q : List Text). d.handed ++ q) (sym e) ∙ o;
    counted = a;
    low = ground arith;
    high = ground arith;
    busy = refl;
    idle = λ h. absurd (ground arith);
    bounded = ground arith;
    flush_last = λ h. absurd (ground arith);
    flush_due = λ h j. absurd (ground arith);
  }

  -- The pump stops and the delivery stays open.
  idle-IsDelivery :
      (ls : List Text) (d : Delivery)
      → IsPumping ls d
      → d.queue ≡ []
      → d.closed ≡ false
      → IsDelivery c ls (record d { running = false; in_flight = none })
  idle-IsDelivery ls d (o, a, n, b, w) e k = record {
    order = o;
    counted = a;
    low = ground arith;
    high = ground arith;
    busy = refl;
    idle = λ h. e;
    bounded = ground arith;
    flush_last = λ h. absurd (ground arith);
    flush_due = λ h j. absurd (ground arith);
  }

  pub pump-IsDelivery :
      (ls : List Text) (d : Delivery) → IsPumping ls d → IsDelivery c ls (pump c d)
  unfolding pump
  pump-IsDelivery ls d p = elim (List-cases d.queue) [
    | inr (l, r, e) ↦
        subst (λ (x : Delivery). IsDelivery c ls x) (ground arith) (pumped-IsDelivery ls d l r p e)
    | inl e ↦ elim (Bool-cases d.closed) [
      | inl k ↦
          let stopped : Delivery = record d { running = false; in_flight = none } in
          let same : flush c stopped ≡ pump c d = ground arith in
          subst (λ (x : Delivery). IsDelivery c ls x) same
            (flush-IsDelivery ls stopped p e refl refl k)
      | inr k ↦
          let same : record d { running = false; in_flight = none } ≡ pump c d = ground arith in
          subst (λ (x : Delivery). IsDelivery c ls x) same (idle-IsDelivery ls d p e k)
    ]
  ]
