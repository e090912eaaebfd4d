-- ===== src/Lib.antt =====
-- Verification of the cross-border commerce backend, a Go service that pulls product feeds, detects
-- changes of products, publishes them through an outbox, and resolves regulatory rules.
--
-- The parts and how they interact. The synchronisation of a source (Ingestion) fetches pages from an
-- adapter, saves their raw records with the progress of an ingestion run, and queues the run. A worker
-- claims the queued run and goes through its raw records by pages (Processing), each of which is
-- folded into a plan of writes (Product), whose events go to the outbox. The relay (Outbox) leases the
-- events and publishes them to a broker as entries of a stream. Consumers (Streams) take them up
-- under the idempotency guard (Idempotency), on the worker pool (Worker), with delays and a retry policy
-- (Platform). What fails for good is dead-lettered, and can be replayed through the outbox
-- (DeadLetters). Regulatory datasets are loaded, reviewed and activated, and tariffs are resolved from
-- those in force (Regulatory).
--
-- Which file models what, by the paths of the repository:
--   Base: Boolean tests, slices, strings, case folding, decimals, 64-bit integers, and the errors,
--     results and faults of statements.
--   Platform/Backoff: internal/platform/backoff/backoff.go (Exponential, FullJitter,
--     ValidateRetryPolicy).
--   Ingestion/Run: internal/domain/ingestion/run.go (IngestionRun and its transitions).
--   Ingestion/RawRecord: internal/domain/ingestion/raw_record.go (NewRawRecord, Validate).
--   Ingestion/Checkpoint: internal/domain/ingestion/checkpoint.go (the cursors and the byte offsets).
--   Ingestion/Service: internal/application/ingestion/service.go (StartRun, RecordBatch, CompleteRun,
--     FailRun, CancelRun, ResumeRun, GetRun), over internal/infrastructure/postgres/
--     ingestion_repository.go and its statements. Moved, Closed and Started say what each leaves.
--   Ingestion/Sync: internal/application/ingestion/sync.go (SyncSource, persistBatch, failRun,
--     cancelRun); Kept has what it leaves in the database, Ends that it returns.
--   Sources/Pagination: internal/adapters/sources/pagination/strategy.go (the pages by cursors and by
--     numbers); Next has the request behind a page.
--   Processing/Row: the row of run_processing under the statements of internal/infrastructure/postgres/
--     generated/run_processing.sql.go. Processing/Keyset: ListKeysetByRunID.
--   Processing/Session, Run: internal/application/product/process_run.go (ProcessNext, ProcessRun, the
--     transaction of a page and its retry).
--   Product/Canonical, Transition: internal/domain/product/fingerprint.go, transition.go.
--   Product/Batch: internal/domain/product/batch.go: Grouping has groupByIdentity, Versions has
--     identityFold and addVersion, Fold has apply, emit and DecideBatch, Plan the rows of a BatchPlan,
--     Unchanged what a fold without a new version adds.
--   Outbox/Relay, Shutdown: internal/application/outbox/relay.go (RunOnce, Run, withoutCancellation).
--   Outbox/Store: internal/infrastructure/postgres/outbox_repository.go (ClaimBatch, MarkPublished,
--     RecordFailure, Release) and its statements; Served composes them with RunOnce.
--   Streams/Envelope: internal/infrastructure/redis/envelope.go (EncodeEvent, DecodeMessage,
--     deadLetterRecord).
--   Streams/Config, Delivery, Dispatch: internal/infrastructure/redis/consumer.go (ConsumerConfig;
--     processMessage with deadLetterAndAck; dispatchMessage with the set of messages in flight).
--   Idempotency/Store, Table: internal/infrastructure/postgres/idempotency_repository.go and the
--     statements of queries/idempotency_keys.sql beside it, on the whole table and on one row. Fencing and
--     Leases have what a token and a lease keep from the others.
--   Idempotency/Guard: internal/application/idempotency/guard.go (CompleteInTx, Wrap, release).
--   Worker/Pool: internal/platform/worker/pool.go (NewPool, Dispatch, worker, Shutdown).
--   DeadLetters: internal/application/dlq/classifier.go (Classify) and replay.go (Replay), over
--     internal/infrastructure/postgres/dlq_repository.go and queries/dlq_messages.sql; Record is the
--     record that the consumer files.
--   Regulatory/Dataset, Coverage, Tariff: internal/domain/regulatory/dataset.go, coverage.go, tariff.go.
--   Regulatory/Service: internal/application/regulatory/service.go (Activate), over
--     internal/infrastructure/postgres/regulatory_repository.go.
--   Tests: runs of these definitions at concrete inputs.
--
-- How state is modelled. A method that changes its receiver is a function from the old record to a
-- result with the new one. A database table is a function of its key, the list of its rows or the row
-- itself, and a statement is a function of the row. A statement of Processing and of Ingestion fares as a
-- Fault says: it works, it fails without a trace, or it takes effect and its answer is lost. The pool
-- and the set of messages in flight are states with one function per atomic step of a goroutine, and
-- a history is a list of steps in any order. What the code does at each attempt or round is read off a
-- record (World) by the number of the attempt or round. A nil dereference and a panic are the error
-- `panic`, a panic of a handler is an answer of its own. Of errors that are joined or wrapped the
-- first sentinel stands for all. A Go int, int64 or time.Duration is a 64-bit word where its overflow
-- matters; counts of rows and version numbers are numbers without a bound.
--
-- What is a parameter: the Unicode tables beyond ASCII, NFC normalisation, JSON with SHA-256, the layout of
-- instants as text, the random source, fresh UUIDs and their parser, the message handler, the
-- publisher, the adapter of a source, what a path of a JSON body
-- leads to, the answers of the stores, the cancellation of contexts, decimals
-- of tariffs, the comparison of an error budget and Normalize, and what other sessions of the database do.
--
-- Fuel and loops. Loops run over their lists. The loop over the attempts at a message has as many rounds as
-- the configuration allows attempts. HSPrefixes steps down by two from the length of the code and gets
-- that length as fuel; the digits of a number get the number itself. The loop over the pages of a run
-- gets one round more than there are raw records, which is proved to be enough. The loop of SyncSource
-- has its rounds as fuel, since an adapter may go on for ever: what it leaves is proved for any number
-- of rounds, and that it returns from the round on in which the adapter has no more.
--
-- Not modelled: the adapters of sources but for the pagination, the HTTP interface, the migrations and the repositories not
-- named above, which move data in and out; the reading loop of the consumer, its claims of pending
-- messages and the commands of Redis; the encoding of the payloads of new events; mappings and JSON paths;
-- the curated rules; logging, metrics, configuration and wiring.
pub mod Base
pub mod Platform
pub mod Ingestion
pub mod Regulatory
pub mod Product
pub mod Idempotency
pub mod Outbox
pub mod Worker
pub mod DeadLetters
pub mod Processing
pub mod Streams
pub mod Sources
pub mod Tests
