-- ===== src/Logger/Accounting.antt =====
-- Every accepted line is accounted for, in order (src/shared/logger/delivery.ts).
use mathlib.Core.List.{append_assoc}
use modular_hx_fastapi.Common.{
  Bool, Bool-cases, List, Option, Option-cases, Text, [], ap, arith, false, inl, inr, length-append,
  none, refl, some, subst, suc, sym, true, ◌++◌, ◌+◌, ◌∙◌, ◌∷◌, ◌≡◌, ◌≤◌, ◌⊎◌,
}
use modular_hx_fastapi.Logger.Deliveries.{
  Delivery, Phase, Setup, Stats, close, create, drop_line, finished, flush, flushed, flushing, pump,
  push, refuses, settle, tally, waiting, write,
}
use modular_hx_fastapi.Logger.Invariant.{
  IsDelivery, IsPumping, create-IsDelivery, flush-IsDelivery, is_finished, is_waiting, present,
  pump-IsDelivery, pushed-IsDelivery, refused-IsDelivery,
}

-- The states that a delivery can be in, with the lines accepted so far: writes, settled awaits and closings
-- in any order.
pub data Reached (c : Setup) : List Text → Delivery → Type 0 where
  created : Reached c [] create
  accepted :
      {ls : List Text} {d : Delivery} (line : Text)
      → refuses c d line ≡ false
      → Reached c ls d
      → Reached c (ls ++ line ∷ []) (write c line d)
  refused :
      {ls : List Text} {d : Delivery} (line : Text)
      → refuses c d line ≡ true
      → Reached c ls d
      → Reached c ls (write c line d)
  settled :
      {ls : List Text} {d : Delivery} (fulfilled : Bool)
      → Reached c ls d
      → Reached c ls (settle c fulfilled d)
  flush_settled :
      {ls : List Text} {d : Delivery} (fulfilled : Bool)
      → Reached c ls d
      → Reached c ls (flushed fulfilled d)
  closing : {ls : List Text} {d : Delivery} → Reached c ls d → Reached c ls (close c d)

pub Phase-cases : (p : Phase) → (p ≡ flushing) ⊎ ((p ≡ waiting) ⊎ (p ≡ finished))
Phase-cases waiting = inr (inl refl)
Phase-cases flushing = inl refl
Phase-cases finished = inr (inr refl)

tally_lem :
    (b : Bool) (s : Stats)
    → ((tally b s).accepted ≡ s.accepted)
      × ((tally b s).written + (tally b s).failed ≡ suc (s.written + s.failed))
unfolding tally
tally_lem true s = (refl, ground arith)
tally_lem false s = (refl, ground arith)

pub no_flight : (o : Option Text) → present o ≡ false → o ≡ none
no_flight none h = refl
no_flight (some l) h = absurd (ground arith)

module _ (c : Setup) where
  open-waiting :
      (ls : List Text) (d : Delivery)
      → IsDelivery c ls d
      → d.closed ≡ false
      → is_waiting d.phase ≡ true
  open-waiting ls d i k = elim (Bool-cases (is_waiting d.phase)) [
    | inl w ↦ w
    | inr w ↦ let (closed, r) = i.flush_last w in absurd (ground arith)
  ]

  running-waiting :
      (ls : List Text) (d : Delivery)
      → IsDelivery c ls d
      → d.running ≡ true
      → is_waiting d.phase ≡ true
  running-waiting ls d i k = elim (Bool-cases (is_waiting d.phase)) [
    | inl w ↦ w
    | inr w ↦ let (closed, r) = i.flush_last w in absurd (ground arith)
  ]

  no_extra : (p : Phase) → is_waiting p ≡ true → is_finished p ≡ false
  no_extra waiting h = refl
  no_extra flushing h = refl
  no_extra finished h = absurd (ground arith)

  pushed-IsPumping :
      (ls : List Text) (d : Delivery) (line : Text)
      → IsDelivery c ls d
      → d.running ≡ false
      → d.closed ≡ false
      → IsPumping c (ls ++ line ∷ []) (push line d)
  unfolding push
  pushed-IsPumping ls d line i r k =
      let w = open-waiting ls d i k in
      let e = i.idle r in
      let grown = length-append ls (line ∷ []) in
      let longer = length-append d.queue (line ∷ []) in
      (
        sym (append_assoc d.handed d.queue (line ∷ []))
            ∙ ap (λ (q : List Text). q ++ line ∷ []) i.order,
        ground (arith, i.counted),
        ground (arith, i.low, i.high, i.busy, no_extra d.phase w),
        ground arith,
        w,
      )

  write-IsDelivery :
      (ls : List Text) (d : Delivery) (line : Text)
      → IsDelivery c ls d
      → refuses c d line ≡ false
      → IsDelivery c (ls ++ line ∷ []) (write c line d)
  unfolding write
  write-IsDelivery ls d line i h = elim (Bool-cases d.running) [
    | inl r ↦
        let same : push line d ≡ write c line d = ground arith in
        subst (λ (x : Delivery). IsDelivery c (ls ++ line ∷ []) x) same
          (pushed-IsDelivery c ls d line i r h)
    | inr r ↦
        let same : pump c (push line d) ≡ write c line d = ground arith in
        subst (λ (x : Delivery). IsDelivery c (ls ++ line ∷ []) x) same
          (pump-IsDelivery c (ls ++ line ∷ []) (push line d)
            (pushed-IsPumping ls d line i r (ground arith)))
  ]

  refused_write-IsDelivery :
      (ls : List Text) (d : Delivery) (line : Text)
      → IsDelivery c ls d
      → refuses c d line ≡ true
      → IsDelivery c ls (write c line d)
  unfolding write
  refused_write-IsDelivery ls d line i h =
      let same : drop_line d ≡ write c line d = ground arith in
      subst (λ (x : Delivery). IsDelivery c ls x) same (refused-IsDelivery c ls d i)

  pub settle-IsDelivery :
      (ls : List Text) (d : Delivery) (b : Bool)
      → IsDelivery c ls d
      → IsDelivery c ls (settle c b d)
  unfolding settle
  settle-IsDelivery ls d b i = elim (Option-cases d.in_flight) [
    | inl e ↦
        let same : d ≡ settle c b d = ground arith in
        subst (λ (x : Delivery). IsDelivery c ls x) same i
    | inr (l, e) ↦
        let w = running-waiting ls d i (ground (arith, i.busy)) in
        let (kept, more) = tally_lem b d.counts in
        let settled_state : Delivery = record d { counts = tally b d.counts } in
        let same : pump c settled_state ≡ settle c b d = ground arith in
        subst (λ (x : Delivery). IsDelivery c ls x) same
          (pump-IsDelivery c ls settled_state (
            i.order,
            kept ∙ i.counted,
            ground (arith, i.low, i.high, no_extra d.phase w),
            ground (arith, i.bounded),
            w,
          ))
  ]

  finished-IsDelivery :
      (ls : List Text) (d : Delivery) (s : Stats)
      → IsDelivery c ls d
      → d.phase ≡ flushing
      → s.accepted ≡ d.counts.accepted
      → d.counts.written + d.counts.failed ≤ s.written + s.failed
      → s.written + s.failed ≤ suc (d.counts.written + d.counts.failed)
      → IsDelivery c ls (record d { counts = s; phase = finished })
  finished-IsDelivery ls d s i p same least most = record {
    order = i.order;
    counted = same ∙ i.counted;
    low = ground (arith, i.low);
    high = ground (arith, i.high);
    busy = i.busy;
    idle = i.idle;
    bounded = i.bounded;
    flush_last = λ h. i.flush_last (ground arith);
    flush_due = λ h j. refl;
  }

  pub flushed-IsDelivery :
      (ls : List Text) (d : Delivery) (b : Bool) → IsDelivery c ls d → IsDelivery c ls (flushed b d)
  unfolding flushed tally
  flushed-IsDelivery ls d b i = elim (Phase-cases d.phase) [
    | inl e ↦ elim (Bool-cases b) [
      | inl t ↦
          let same : record d { phase = finished } ≡ flushed b d = ground arith in
          subst (λ (x : Delivery). IsDelivery c ls x) same
            (finished-IsDelivery ls d d.counts i e refl (omega arith) (omega arith))
      | inr f ↦
          let s : Stats = tally false d.counts in
          let same : record d { counts = s; phase = finished } ≡ flushed b d = ground arith in
          subst (λ (x : Delivery). IsDelivery c ls x) same
            (finished-IsDelivery ls d s i e refl (omega arith) (omega arith))
    ]
    | inr other ↦
        let same : d ≡ flushed b d = elim other [ inl e ↦ ground arith | inr e ↦ ground arith ] in
        subst (λ (x : Delivery). IsDelivery c ls x) same i
  ]

  shut-IsDelivery :
      (ls : List Text) (d : Delivery)
      → IsDelivery c ls d
      → d.running ≡ true
      → IsDelivery c ls (record d { closed = true })
  shut-IsDelivery ls d i r = record {
    order = i.order;
    counted = i.counted;
    low = i.low;
    high = i.high;
    busy = i.busy;
    idle = i.idle;
    bounded = i.bounded;
    flush_last = λ h. (refl, (i.flush_last h).1);
    flush_due = λ h j. absurd (ground arith);
  }

  pub close-IsDelivery :
      (ls : List Text) (d : Delivery) → IsDelivery c ls d → IsDelivery c ls (close c d)
  unfolding close
  close-IsDelivery ls d i = elim (Bool-cases d.closed) [
    | inl k ↦
        let same : d ≡ close c d = ground arith in
        subst (λ (x : Delivery). IsDelivery c ls x) same i
    | inr k ↦ elim (Bool-cases d.running) [
      | inl r ↦
          let same : record d { closed = true } ≡ close c d = ground arith in
          subst (λ (x : Delivery). IsDelivery c ls x) same (shut-IsDelivery ls d i r)
      | inr r ↦
          let shut : Delivery = record d { closed = true } in
          let w = open-waiting ls d i k in
          let e = i.idle r in
          let quiet = no_flight d.in_flight (sym i.busy ∙ r) in
          let same : flush c shut ≡ close c d = ground arith in
          subst (λ (x : Delivery). IsDelivery c ls x) same
            (flush-IsDelivery c ls shut
              (
                i.order,
                i.counted,
                ground (arith, i.low, i.high, no_extra d.phase w),
                ground arith,
                w,
              )
              e quiet r refl)
    ]
  ]

  -- In every state that writes, settled awaits and closings can reach, in any order, the lines handed to the
  -- sink followed by the queue are the accepted lines in order; their number is the counter `accepted` and,
  -- but for one failed flush at the end, the sum of those written, failed, queued and in flight. The queue
  -- keeps to the capacity, the pump runs exactly while a write is awaited, and the flush is begun exactly
  -- when the delivery is closed and the pump has stopped.
  pub Reached-IsDelivery : (ls : List Text) (d : Delivery) → Reached c ls d → IsDelivery c ls d
  Reached-IsDelivery ls d created = create-IsDelivery c
  Reached-IsDelivery ls d (accepted line h r) =
      write-IsDelivery _ _ line (Reached-IsDelivery _ _ r) h
  Reached-IsDelivery ls d (refused line h r) =
      refused_write-IsDelivery _ _ line (Reached-IsDelivery _ _ r) h
  Reached-IsDelivery ls d (settled b r) = settle-IsDelivery _ _ b (Reached-IsDelivery _ _ r)
  Reached-IsDelivery ls d (flush_settled b r) = flushed-IsDelivery _ _ b (Reached-IsDelivery _ _ r)
  Reached-IsDelivery ls d (closing r) = close-IsDelivery _ _ (Reached-IsDelivery _ _ r)
