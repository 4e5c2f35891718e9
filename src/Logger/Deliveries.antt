-- ===== src/Logger/Deliveries.antt =====
-- src/shared/logger/delivery.ts: a bounded queue with one pump that writes to the sink. A transition is what
-- runs between two awaits; `settle` and `flushed` are the continuations of the two awaits, with whether the
-- sink's promise was fulfilled.
use modular_hx_fastapi.Common.{
  Bool, List, Option, Text, [], false, leb, length, ltb, none, not, some, suc, true, ℕ, ◌&&◌, ◌++◌,
  ◌||◌, ◌∷◌,
}
use modular_hx_fastapi.Errors.{
  Failure, Result, invalid, refuse_if, timeout, typed_failure, unavailable, ◌>>◌,
}

pub record Stats : Type 0 where
  pub accepted : ℕ
  pub written : ℕ
  pub dropped : ℕ
  pub failed : ℕ

-- How far the only flush is: `finished` once the promise `#done` is resolved.
pub data Phase : Type 0 where
  waiting flushing finished : Phase

-- The readonly parameters, and `Buffer.byteLength` of a line in UTF-8.
pub record Setup : Type 0 where
  pub capacity : ℕ
  pub max_bytes : ℕ
  pub noop : Bool
  pub byte_length : Text → ℕ

-- The fields of the class, the line whose write is awaited and the lines handed to the sink so far.
pub record Delivery : Type 0 where
  pub counts : Stats
  pub closed : Bool
  pub queue : List Text
  pub running : Bool
  pub in_flight : Option Text
  pub handed : List Text
  pub phase : Phase

unfoldable pub create : Delivery
create = record {
  counts = record { accepted = 0; written = 0; dropped = 0; failed = 0 };
  closed = false;
  queue = [];
  running = false;
  in_flight = none;
  handed = [];
  phase = waiting;
}

-- `#flush`, up to its await: a sink that discards is not flushed.
unfoldable pub flush : Setup → Delivery → Delivery
flush c d = elim c.noop [
  | true ↦ record d { phase = finished }
  | false ↦ record d { phase = flushing }
]

-- The head of the loop of `#pump`, up to its await or its end.
unfoldable pub pump : Setup → Delivery → Delivery
pump c d = elim d.queue [
  | line ∷ rest ↦ record d {
    queue = rest;
    running = true;
    in_flight = some line;
    handed = d.handed ++ line ∷ [];
  }
  | [] ↦
      let stopped : Delivery = record d { running = false; in_flight = none } in
      elim d.closed [ true ↦ flush c stopped | false ↦ stopped ]
]

abbrev pub refuses : Setup → Delivery → Text → Bool
refuses c d line =
    d.closed
    || ltb c.max_bytes (c.byte_length line)
    || (d.running && leb c.capacity (length d.queue))

unfoldable pub drop_line : Delivery → Delivery
drop_line d = record d {
  counts = record {
    accepted = d.counts.accepted;
    written = d.counts.written;
    dropped = suc d.counts.dropped;
    failed = d.counts.failed;
  };
}

unfoldable pub push : Text → Delivery → Delivery
push line d = record d {
  counts = record {
    accepted = suc d.counts.accepted;
    written = d.counts.written;
    dropped = d.counts.dropped;
    failed = d.counts.failed;
  };
  queue = d.queue ++ line ∷ [];
}

unfoldable pub write : Setup → Text → Delivery → Delivery
write c line d = elim (refuses c d line) [
  | true ↦ drop_line d
  | false ↦ elim d.running [ true ↦ push line d | false ↦ pump c (push line d) ]
]

-- The counters after a settled write.
unfoldable pub tally : Bool → Stats → Stats
tally true s = record {
  accepted = s.accepted;
  written = suc s.written;
  dropped = s.dropped;
  failed = s.failed;
}
tally false s = record {
  accepted = s.accepted;
  written = s.written;
  dropped = s.dropped;
  failed = suc s.failed;
}

-- The awaited `sink.write` settles; nothing is awaited otherwise.
unfoldable pub settle : Setup → Bool → Delivery → Delivery
settle c fulfilled d = elim d.in_flight [
  | none ↦ d
  | some line ↦ pump c (record d { counts = tally fulfilled d.counts })
]

-- The awaited `sink.flush` settles.
unfoldable pub flushed : Bool → Delivery → Delivery
flushed fulfilled d = elim d.phase [
  | flushing ↦ elim fulfilled [
    | true ↦ record d { phase = finished }
    | false ↦ record d { counts = tally false d.counts; phase = finished }
  ]
  | waiting ↦ d
  | finished ↦ d
]

-- `close` before its await, with a proper deadline.
unfoldable pub close : Setup → Delivery → Delivery
close c d = elim d.closed [
  | true ↦ d
  | false ↦
      let shut : Delivery = record d { closed = true } in
      elim d.running [ true ↦ shut | false ↦ flush c shut ]
]

-- What `close` returns: `proper` is whether the deadline is finite and not negative, `timed_out` who won the
-- race, and the counter is the one after the race.
unfoldable pub close_result : Bool → Bool → Stats → Result (Unit {0}) Failure
close_result proper timed_out s = do
  refuse_if (not proper)
      (typed_failure invalid "invalid flush deadline" "logger.invalid_configuration")
  refuse_if timed_out (typed_failure timeout "log flush deadline exceeded" "logger.flush_timeout")
  refuse_if (ltb 0 s.failed) (typed_failure unavailable "log sink failed" "logger.sink")
