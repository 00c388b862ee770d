-- ===== src/Lib.antt =====
-- go-yandex-metrics: a server that collects counters and gauges over HTTP and gRPC.
--
-- The program and its model. A metric is a counter, whose deltas are summed, or a gauge, whose
-- values replace each other. Requests come in by HTTP (internal/handler/server/handler.go) or gRPC
-- (internal/grpcserver/server.go), go through a service (internal/service/service.go) to a storage
-- (internal/repository), and each request that has changed something publishes an audit event
-- (internal/audit). The agent encrypts and signs its bodies (internal/cryptoutil/rsa.go,
-- internal/hashutil/hash.go).
--
-- Files:
--   Base           shared names, tests into Bool, lists, results, 64-bit addition, decimal text
--   Model          internal/model/metrics.go, and the keys of internal/repository/memory.go
--   Repository     Merge: `validateMetric` and the update of a stored metric, as functions on views;
--                  Contract: the interface `Storage` of internal/repository/repository.go as a
--                  record of operations, and what its clients rely on (`Promises`);
--                  Memory: internal/repository/memory.go, with the agreement of its index and its
--                  slice (Index), whole calls (Batch), histories (History), sums (Totals), and
--                  the contract filled (Promised)
--   Service        internal/service/service.go over any storage
--   Crypto         `Encrypt` and `Decrypt` of internal/cryptoutil/rsa.go
--   Retry          the loop of `withRetryValue` of internal/repository/postgres.go
--   Postgres       internal/repository/postgres.go over a database that is a parameter: what its
--                  statements do (Laws), that they are upserts (Upsert), what the retries make of an
--                  operation (Retried), and how a save (Save), a batch (Batch) and the reads (Reads) end
--   Handler        internal/handler/server/handler.go and internal/audit/request.go: Http (requests
--                  and writers), Body (decryption, gzip, signature), Event, Query and Update (the
--                  handlers), Reads (what reads answer), Routes (the trusted subnet), Writers (the
--                  logging of internal/server/logger, the compression of internal/server/gzip, and
--                  `HashResponseMiddleware`), Signed and Served (what comes out of the three)
--   Grpc           internal/grpcserver/server.go, and how its calls end (Ends)
--   Persistence    internal/server/file_converter/file_converter.go and internal/server/server.go,
--                  with what a write leaves in the file (Atomic), saving and restoring (Restart),
--                  and the saving goroutine (Loop)
--   Audit          internal/audit/audit.go: the manager and its observers; sending with retries
--                  (Delivery), what an observer that is not configured does (Absent), and the lines
--                  of all events (Sequence)
--   Agent          internal/agent/agent.go and internal/agent/grpc.go: collecting and sending with
--                  revisions (Revisions), the request that is sent, up to its reading by the server
--                  (Request), the table of `buildMemMetrics` (Table), the payload of a table
--                  (Payload) and of a snapshot (Snapshot), the gRPC request (Proto), from a snapshot
--                  to the storage (Delivery), sending with retries (Sending), how that ends
--                  (Attempts), `RunAgent` (Run), what its sent revision stands for (Backed), and what it
--                  has delivered when it ends (Stops)
--   Workers        internal/workerpool/workerpool.go as a step relation: what a pool holds (Bounds),
--                  and its end (Drain)
--   Configuration  internal/config/config.go and cmd/server/flags.go, with the order of the sources
--                  (Precedence); cmd/agent/flags.go (Agent) with the same (Choice)
--   Server         cmd/server/main.go: the start with its checks (Start), and the shutdown with the
--                  last save (Flush)
--   Linter         cmd/linter/analyzer.go: which calls are forbidden (Rule), and what it reports of a
--                  body (Bodies) and of a file (Reported)
--   Tests          concrete runs
--
-- Conventions. An int64 and a float64 are 64-bit patterns in ℕ; addition wraps. A nil pointer is
-- `none`. A Go error is a value of `Error`, a panic is a result of its own, so that its absence is
-- proved. `ctx.Err()` is a function from the number of the question to the answer, so a context may
-- be cancelled between any two questions. The storage's lock makes each of its methods one step, so
-- concurrent clients are sequences of calls. A handler works on a world: the storage, the calls on
-- its ResponseWriter in order, the audit events that it hands to the publisher (what the publisher
-- does with them, its panic without a file or a URL included, is in Audit), and whether it has
-- panicked. Writer calls are
-- interpreted for net/http (`served_status`) and for the buffer of the hash middleware
-- (`buffered_status`).
--
-- Fuel. The loops of `Encrypt` and `Decrypt` run on the length of their data, and a decimal number
-- has at most 20 digits; that this is enough is proved with the round trips.
--
-- Parameters: RSA-OAEP (a key pair whose documented inverse law is `KeyPair`), HMAC-SHA256, JSON
-- decoding, gzip (lossless, `IsLossless`), `strconv.ParseFloat` and the printing of a float64 (what
-- is printed parses, `ParsesFloats`), the database (`Sql`, what PostgreSQL documents of the
-- statements and of transactions: an error of the server outside class 08 and other than 40003 tells
-- that nothing was done, any other may be that of an answer that was lost), the clients of HTTP and gRPC, the file
-- system (every call may fail), `net.ParseIP`, `net.SplitHostPort`, what the flag and env packages
-- read, what the start of the server and of the agent loads, the receiver of audit events, and the
-- status code that grpc gives a context's error, and the syntax trees of go/ast with their types and
-- positions. JSON encoding is kept abstract: a body holds the value that is encoded, and encoding
-- fails exactly at a float64 that is no finite number.
--
-- Not modelled: logging, generated code, TLS and PEM files (calls of crypto/x509), the router's
-- matching of paths, the object pool (a wrapper of sync.Pool), `main` with its signals; not yet
-- modelled: the generator under cmd/reset.
pub mod Base
pub mod Model
pub mod Repository
pub mod Service
pub mod Crypto
pub mod Retry
pub mod Handler
pub mod Grpc
pub mod Persistence
pub mod Audit
pub mod Agent
pub mod Configuration
pub mod Postgres
pub mod Workers
pub mod Server
pub mod Linter
mod Tests
