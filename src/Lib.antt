-- ===== src/Lib.antt =====
-- A verification of the shared foundations of the service: failures, identifiers, provenance, the log
-- queue, configuration, validation, pagination, the completion of requests, principals, database transactions,
-- durable events with their outbox, mailbox and broker, and outgoing requests.
--
-- The parts and the files that model them (paths from the root of the repository):
-- - src/shared/errors: Errors/Kinds (kind.ts), Errors/Results (result.ts), Errors/Failures (failure.ts). A
--   value of type Unknown is any value of the program: `plain`, a failure that the module made, or a
--   carrier; which of them it is stands for the two weak maps. publicInfo is public_info, fromCaught
--   from_caught. Errors/Projection has the proofs.
-- - src/shared/id: Identifiers/Values (value.ts) and Identifiers/Generator (v7.ts, sequence.ts). The state of
--   a generator is V7; the clock's reading and the entropy's draw are arguments of each call. Format,
--   Ordering, Issuing and History have the proofs, Hex the digits.
-- - src/shared/provenance: Provenance/Actors (actor, attribution, reference, operation), Works (work.ts),
--   Scopes (scope.ts), Incoming (incoming.ts), Links (links.ts) and Factories (factory.ts). A weak set is the
--   field `known`. A method of the factory takes the generator, its state and the time. Validity and Execution
--   state well-formedness apart from the validators; Lineage, Descent and Entry say how scopes are related;
--   References, Inspection and LinkSets are about references, hints and links.
-- - src/shared/logger/delivery.ts: Logger/Deliveries. A transition is what runs between two awaits: write,
--   settle (a write to the sink settles), flushed (the flush settles), close. Logger/Invariant, Accounting and
--   Draining have the proofs.
-- - src/shared/env: Env/Parsing (parse.ts) and Env/Readers (reader.ts); every method is `resolve` with its
--   judgement of the value found. The lookup is a parameter. Env/Integers says what digits write and how integers
--   are ordered, apart from the parser; Env/Soundness and Env/Invariant have the proofs.
-- - src/shared/validation/index.ts: Validation/Scalars and Validation/Reports; Validation/Bounded compares a
--   report with an unbounded list.
-- - src/shared/pagination/index.ts: Pagination/Cursors; the encodings of the platform are the record Codec.
--   Pagination/Paging has the proofs.
-- - src/shared/http: Http/Policies (policy.ts, problem.ts) and Http/Lifecycles (lifecycle.ts); the outcomes of
--   src/shared/telemetry/index.ts are the type Outcome. Classifying and Finishing have the proofs.
-- - src/shared/clock/clock.ts: Clock/Fakes, the fake clock; Clock/Advancing has the proof.
-- - src/shared/postgres/index.ts: Postgres/Mapping (open, map, commitFailure), Transactions (transaction) and
--   Migrations (migrate). A transaction is a state that the settled awaits, the timer and the signal move:
--   `move` is what runs after one of them, at the await where it can happen. Outcomes, Races and Migrating have
--   the proofs. The checksum and the code of a database error are parameters.
-- - src/shared/events/index.ts: Events/Works (workIn, workOut) and Events/Envelopes; JSON and UTF-8 are the
--   record Json. Fields, Reading, References, Attributions and Restoring are about the work that is read and
--   written, Normalizing and Decoding about the envelope. Identifiers/Canonical has what decoding needs of parse.
-- - src/shared/events/postgres/store.ts: Events/Outbox has the statements on the tables, which are lists of
--   rows, and Delivery the operations (claim, finish_lease for ack and release, dispatch, publish_mail, consume).
--   Fate says how a transaction ends and Run what the clock of the database reads. Tables, Claims and Orders
--   have the invariant of the outbox, Sending, Marking and Dispatches what is sent, Mailbox and Handling what is handled.
-- - src/shared/events/jetstream/broker.ts: Jetstream/Links (request, operation) and Jetstream/Brokers (provision,
--   publish, transfer). A computation takes the answers that will come, records what it sends with its headers,
--   and throws. The three decodings of bytes and JSON.parse are parameters. Answers, Transferring,
--   Acknowledging, Publishing and Receipts have the proofs.
-- - src/shared/httpclient/index.ts: Outbound/Requests (create and do up to the request) and Outbound/Exchanges
--   (the request, whose listeners are `occur`, and the client). Receiving, Responding and Sharing have the proofs.
-- - src/modules/identity/domain/principal.ts: Identity/Principals and Identity/Transitions.
-- Common has the lists over native numbers, texts as lists of UTF-16 units, the numbers and values of the
-- source language, and decimal digits. Tests has runs on concrete inputs.
--
-- The parts interact as in the source: every part returns failures of Errors; Provenance parses identifiers
-- with Identifiers; Pagination reads sizes and Identity reads names with Validation; Events reads provenance
-- and runs its statements in transactions, which either commit, fail, or end uncertain as in Postgres.
--
-- Bounds and fuel: a number of the source is Num, an integer or not; the limits are the source's. Digits are
-- printed on fuel: 14 hexadecimal and 16 decimal digits are enough for every safe integer. No other function
-- runs on fuel.
--
-- Not modelled: freezing and copying of objects, since values are immutable here; the log runtime; the health
-- gate; the pool, the connections and the closing of the database; two transactions on the outbox or the mailbox
-- that are open at the same time, since rows are locked and each transaction is one step on the tables; the
-- connection of the message broker, the HTTP server, sockets and telemetry; and the composition of the program
-- with its framework. The authentication values of the identity module are stubs in the source.
-- Numbers that are no integers are one value, so payloads that differ only in them are one payload here: what is
-- said of stored and compared payloads holds for payloads whose numbers are integers.
pub mod Clock
pub mod Common
pub mod Env
pub mod Errors
pub mod Events
pub mod Jetstream
pub mod Outbound
pub mod Http
pub mod Identifiers
pub mod Identity
pub mod Logger
pub mod Pagination
pub mod Postgres
pub mod Provenance
pub mod Tests
pub mod Validation
