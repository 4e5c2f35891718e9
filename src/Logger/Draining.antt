-- ===== src/Logger/Draining.antt =====
-- A closed delivery drains and finishes once its sink has answered (src/shared/logger/delivery.ts).
use mathlib.Core.List.{append-nil}
use modular_hx_fastapi.Common.{
  Bool, Bool-cases, List, Option-cases, Text, [], ap, arith, false, inl, inr, length, none, some,
  sym, true, ℕ, ◌++◌, ◌+◌, ◌∙◌, ◌∷◌, ◌≡◌,
}
use modular_hx_fastapi.Logger.Deliveries.{
  Delivery, Setup, close, finished, flush, flushed, pump, settle, tally,
}
use modular_hx_fastapi.Logger.Invariant.{IsDelivery, List-cases, is_waiting, one, present}
use modular_hx_fastapi.Logger.Accounting.{
  Phase-cases, Reached, Reached-IsDelivery, close-IsDelivery, settle-IsDelivery,
}

-- The sink answers the awaited writes one after another.
abbrev pub settle_all : Setup → List Bool → Delivery → Delivery
settle_all c [] d = d
settle_all c (b ∷ bs) d = settle_all c bs (settle c b d)

-- The writes that are still to be answered.
abbrev pub pending : Delivery → ℕ
pending d = length d.queue + one (present d.in_flight)

module _ (c : Setup) where
  flush-pending :
      (d : Delivery)
      → ((flush c d).queue ≡ d.queue)
        × ((flush c d).in_flight ≡ d.in_flight)
        × ((flush c d).closed ≡ d.closed)
  unfolding flush
  flush-pending d = elim (Bool-cases c.noop) [
    | inl n ↦ (ground arith, ground arith, ground arith)
    | inr s ↦ (ground arith, ground arith, ground arith)
  ]

  pump-pending :
      (d : Delivery) → (pending (pump c d) ≡ length d.queue) × ((pump c d).closed ≡ d.closed)
  unfolding pump
  pump-pending d = elim (List-cases d.queue) [
    | inr (l, r, e) ↦ (ground arith, ground arith)
    | inl e ↦ elim (Bool-cases d.closed) [
      | inl k ↦
          let (q, f, m) = flush-pending (record d { running = false; in_flight = none }) in
          (ground arith, ground arith)
      | inr k ↦ (ground arith, ground arith)
    ]
  ]

  settle-pending :
      (b : Bool) (d : Delivery) (l : Text)
      → d.in_flight ≡ some l
      → (pending (settle c b d) ≡ length d.queue) × ((settle c b d).closed ≡ d.closed)
  unfolding settle
  settle-pending b d l e =
      let (p, m) = pump-pending (record d { counts = tally b d.counts }) in
      (ground arith, ground arith)

  drained :
      (bs : List Bool) (ls : List Text) (d : Delivery)
      → IsDelivery c ls d
      → d.closed ≡ true
      → length bs ≡ pending d
      → IsDelivery c ls (settle_all c bs d)
        × ((settle_all c bs d).running ≡ false)
        × (is_waiting (settle_all c bs d).phase ≡ false)
  drained [] ls d i k n =
      let r : d.running ≡ false = ground (arith, i.busy) in (i, r, i.flush_due k r)
  drained (b ∷ bs) ls d i k n = elim (Option-cases d.in_flight) [
    | inl e ↦ absurd (ground (arith, i.busy, i.idle))
    | inr (l, e) ↦
        let (p, m) = settle-pending b d l e in
        drained bs ls (settle c b d) (settle-IsDelivery c ls d b i) (m ∙ k) (ground arith)
  ]

  flushed-finished :
      (b : Bool) (d : Delivery)
      → is_waiting d.phase ≡ false
      → ((flushed b d).phase ≡ finished) × ((flushed b d).handed ≡ d.handed)
  unfolding flushed
  flushed-finished b d w = elim (Phase-cases d.phase) [
    | inl e ↦ elim (Bool-cases b) [
      | inl t ↦ (ground arith, ground arith)
      | inr f ↦ (ground arith, ground arith)
    ]
    | inr (inl e) ↦ absurd (ground arith)
    | inr (inr e) ↦ (ground arith, ground arith)
  ]

  all_handed :
      (ls : List Text) (d : Delivery) → IsDelivery c ls d → d.running ≡ false → d.handed ≡ ls
  all_handed ls d i r =
      sym (append-nil d.handed) ∙ ap (λ (q : List Text). d.handed ++ q) (sym (i.idle r)) ∙ i.order

  closed_now : (d : Delivery) → (close c d).closed ≡ true
  unfolding close
  closed_now d = elim (Bool-cases d.closed) [
    | inl k ↦ ground arith
    | inr k ↦ elim (Bool-cases d.running) [
      | inl r ↦ ground arith
      | inr r ↦ let (q, f, m) = flush-pending (record d { closed = true }) in ground arith
    ]
  ]

  -- Closing terminates: when any reachable delivery is closed, then once the sink has answered the writes still
  -- pending and the flush, each in whatever way, the delivery is finished and every accepted line was
  -- handed to the sink, in order.
  pub close-drains :
      (bs : List Bool) (b : Bool) (ls : List Text) (d : Delivery)
      → Reached c ls d
      → length bs ≡ pending (close c d)
      → ((flushed b (settle_all c bs (close c d))).phase ≡ finished)
        × ((flushed b (settle_all c bs (close c d))).handed ≡ ls)
  close-drains bs b ls d reached n =
      let i = close-IsDelivery c ls d (Reached-IsDelivery c ls d reached) in
      let (kept, stopped, w) = drained bs ls (close c d) i (closed_now d) n in
      let (f, h) = flushed-finished b (settle_all c bs (close c d)) w in
      (f, h ∙ all_handed ls (settle_all c bs (close c d)) kept stopped)
