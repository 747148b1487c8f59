-- ===== src/Lib.antt =====
-- Verification library of the sessions hub (hub/): a Cloudflare Worker that stores transcripts of
-- coding agents, parses them into blocks, prices their usage and reports on them, with the telemetry
-- gateway beside it. The library models the parts whose logic is the program's own: definitions are
-- translated from the TypeScript sources, in which a function keeps its name in snake_case, and the
-- theorems are about those definitions.
--
-- The parts and their files:
--
-- + Jsonl: hub/src/ingest/jsonl.ts, `readJsonlLines`. The ingest consumer reads a stored transcript
--   through it, and every block it indexes keeps the byte range that the reader reports. The locals
--   of the generator are the record `Reader`; `append`, `flush`, `scan` and `read_chunks` are its
--   closures and loops. Jsonl/Reference.antt reads the same bytes one at a time.
-- + Otlp: hub/gateway/otlp-protobuf.ts. The telemetry gateway turns OTLP JSON into requests of a
--   bounded size with it. Otlp/Wire.antt has the `push…` functions (each returns the bytes that the
--   source appends), Otlp/Values.antt the JSON objects, Otlp/Encode.antt one encoder for each
--   message, Otlp/Chunks.antt `chunkSignal`, `truncateUtf8` and `degradeLogRecord`. Otlp/Decode.antt
--   is a reader of the wire format, and Otlp/Trees.antt what the fields of a log record or a span
--   mean, nested to any depth; both are written from the format, not from the encoder.
--   Otlp/Schema.antt lists the fields of the messages around them. Otlp/Readback.antt and Otlp/Records.antt relate
--   the two.
-- + Shards: hub/src/index-layout.mjs and hub/src/index-shards.ts. The consumer and the search place
--   a session's blocks by them. A D1 database is the rows that these functions touch; a statement
--   or a batch is one transition. `mapIndexDbs` is a pool of workers that run in any order.
-- + Rollups: hub/src/session-rollup-jobs.ts with hub/src/cron/session-rollup.ts. The row of a job,
--   the statements on it, and a delivery of its queue message, in which every D1 call may fail
--   before or after it takes effect and other deliveries may run during the pass.
-- + Queue: hub/src/queue.ts. Uploads, checks and reindexing requeue a stored file through
--   `markPendingAndEnqueue`, which guards the reservations of the export cleanup.
-- + Uploads: hub/src/api/upload.ts and hub/src/api/multipart.ts, by which the collector stores files.
--   The state `Hub` is what the routes keep of one path: its R2 objects, its `files` row, the sessions
--   that it owns and the messages sent. A request is an `Action` on it, a state monad with
--   exceptions; `Outside` says how each call of R2 and of the queue ends. Uploads/Objects.antt copies
--   displaced objects aside, Uploads/Rows.antt has the SQL, Uploads/Finish.antt what follows a stored
--   object, Uploads/Put.antt, Uploads/Check.antt, Uploads/Multipart.antt and Uploads/Complete.antt the
--   routes; they requeue through Queue. Uploads/Keeping.antt carries predicates through actions.
-- + Grants: hub/src/auth/read-grants.ts, the codes and bearers by which an agent reads. The two tables
--   are the record `Grants`; Grants/Traces.antt runs any sequence of requests on them.
-- + Detect: hub/src/ingest/detect.ts, its regular expressions written out over code units, and the
--   type `Harness` of hub/src/ingest/normalize.ts; Detect/PromptLogs.antt how the machine matters.
-- + Pricing: hub/src/pricing.ts, hub/src/cache-basis.ts and `priceForGroup` of hub/src/usage-agg.ts.
-- + Prelude: lists, tests, integers and results that the parts share.
--
-- Fuel. `Jsonl.scan` gets one more than the bytes of the chunk, and each round but the last consumes
-- a newline; the loops over a varint get one more than the value, which each round divides by 128;
-- the readers of Otlp/Decode.antt get the length of their input, and each field takes a byte. The
-- round trips and the equivalence with the reference hold with this fuel and would fail without it.
-- `Uploads.chunks_from` gets the number of the items, and each round takes one at least.
--
-- What is a parameter: SHA-256, what R2 assembles of the parts of an upload, the detection of an
-- uploaded path (Uploads takes any), `TextDecoder.decode`, `TextEncoder.encode` and
-- `TextEncoder.encodeInto`, the bits of a double, the clock, random ids, the result of a rollup
-- pass, the calls that read a shard, and the type of dollars with its operations (JavaScript
-- numbers round). The laws that a theorem needs of them are its hypotheses.
--
-- What is not modelled: the SQL reports, the HTML viewer, WebCrypto and WebAuthn, HTTP routing, the
-- ingest consumer and the parsers of third-party transcripts, the Python collector and client, and
-- the deployment scripts: they are queries, markup and calls of services, or read formats that
-- other programs define. Caches of the isolate (`shardSets`, `verifiedLayouts`) and logs are left
-- out of the functions that are modelled. In Uploads, D1 does not fail, and two requests of one path
-- overlap only where a definition begins with the state that the other has left.
pub mod Prelude
pub mod Jsonl
pub mod Otlp
pub mod Shards
pub mod Rollups
pub mod Pricing
pub mod Queue
pub mod Detect
pub mod Uploads
pub mod Grants
