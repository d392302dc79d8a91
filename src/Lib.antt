-- ===== src/Lib.antt =====
-- Avatars: a service that takes users' avatar images over HTTP, keeps their metadata in PostgreSQL
-- and their files in an S3 store, and processes them in a worker that is fed by RabbitMQ.
--
-- The parts and the files that model them (paths from the repository's root):
-- - internal/models/avatar.go: Models (the record Avatar, the statuses).
-- - internal/storage: Storage is the interface; Storage/Mem is mem.go; Storage/Postgres is
--   postgres.go, each method by the meaning of its SQL statement on the two tables of migrations/.
--   Storage/Opening has NewPostgresStorage; Storage/Ops has the calls as values; Storage/Agreement,
--   Totals, Reads and RoundTrip compare the two.
-- - internal/resilience/breaker.go: Breaker (NewBreaker is new_breaker, Call is call, made of
--   is_open and finish, which are its two critical sections); Breaker/Laws, Calls and Interleaving.
-- - internal/handler/ratelimit.go: RateLimit (newUploadRateLimiter, allow), RateLimit/Bucket, and
--   RateLimit/Middleware (UploadRateLimitMiddleware is upload_rate_limit).
-- - internal/handler/handler.go: Handler (the interfaces, NewHandler), Handler/Files
--   (allowedExtension, detectContentType), Handler/Upload (UploadAvatar is upload_avatar; its
--   checks are upload_checks), Handler/Avatars (GetAvatar, DeleteAvatar, Ping, toResponse),
--   Handler/Pings (Ping again and again); Http has the requests and responses.
-- - internal/handler/router.go and internal/web/web.go: Router has what NewMux registers (patterns)
--   and how ServeMux of net/http finds a handler for a method and a path (find_handler);
--   Router/Matching and Table give the table of the routes; Router/Serving is the mux with its
--   handlers (serve_mux), Index, and the root handler of cmd/api/main.go with its middlewares
--   (root); Router/Uploads, Runs and Limits say how often it comes to UploadAvatar, and
--   Router/Labels how a request is counted.
-- - internal/queue: Queue (message.go, topology_names.go), Queue/Retry (retry.go), Queue/Consumer
--   (consumer.go, channel.go) with Queue/Consumer/Stopping.
-- - internal/queue/topology.go, connection.go and propagation.go: Queue/Topology with
--   Queue/Topology/Routes, Queue/Connection, Queue/Propagation.
-- - internal/objectstore/client.go: ObjectStore, ObjectStore/Deletions.
-- - internal/metrics: Metrics, Metrics/Management, Metrics/Pollers (the loops and the collectors).
-- - internal/logger and internal/telemetry: Logging, Logging/Levels, Logging/Startup (Init),
--   Logging/Loggers.
-- - internal/config: Config, Config/App, Config/Path, Config/Precedence.
-- - cmd/api/main.go and cmd/worker/main.go: `run` resolves its options by resolve of Config/App and
--   is then run_api and run_worker of Commands; Commands/Closing and Codes. Commands/Opening makes the
--   resources of the two by Init, NewPostgresStorage and Connect; Commands/Launch has the whole of run
--   (launch_api, launch_worker), and shutdownSignals. cmd/api/version.go and cmd/worker/version.go:
--   BuildInfo.
-- - internal/processor/image.go: Processor (Process is process), Processor/Sizes,
--   Processor/Outcome.
-- - internal/worker/service.go: Worker (Handle is handle).
-- - Recording runs the handlers, the consumer and the worker in any environment and notes each call
--   with its answer; its children state what the notes can be. System puts the handlers, the
--   consumer and the worker over one state; System/Uploading, Working, EndToEnd, Redelivery and
--   Orphans follow an upload through it, System/Refinement sets the handlers against a map from
--   users to avatars, and System/Broker the messages through the queues (Conservation, and
--   DeadLetters for one that always fails); System/Rows has the invariant of the rows of PostgreSQL
--   (Keeping) and the calls that keep it (Calls); System/OverPostgres puts the handlers and the
--   worker over PostgreSQL with faults, beside any object store and broker, for System/Settling
--   (the worker's row), System/Isolation (the rows of other users) and System/Idempotency
--   (processed messages). Tests has the theorems at concrete inputs.
-- - Prelude has the shared names, Go's errors, texts, maps and machine integers.
--
-- How the parts interact: UploadAvatar stores the file, writes the metadata and publishes a
-- message; the consumer hands the message to Handle, which stores the processed images and makes
-- the avatar ready; a failed message comes back by the retry queues; GetAvatar and DeleteAvatar
-- read and remove what the two have written.
--
-- How Go is modelled. A stateful method is a function of the state of its environment that returns
-- the results and the new state; the statements after an error test are a function of the error, so
-- each early return is a clause. Errors are `Error`, with `none` for nil, and a value with an error
-- is a `Result`. A method that holds a lock from its first to its last step is one transition.
-- Clocks are arguments or fields. Times and durations are nanoseconds since Go's zero time. Sizes
-- are natural numbers, and the sums that can leave an int64 are written with their wrap-around. The
-- limiter's float64 tokens are exact fractions. No definition runs on fuel: loops go over lists.
--
-- What is a parameter: the image codecs (`Codec`), the S3 requests (`S3`), the object store, the
-- broker's channel and its acknowledgements, environment variables, flags and files, the metrics,
-- url.PathUnescape at a segment, the clock and the body of each request, json.Marshal and
-- json.Unmarshal, the fresh message id, and the form that the multipart parser yields (`Form`).
-- PostgreSQL's faults are a list in the state, which also says what a TIMESTAMPTZ column keeps of a
-- time; numbers fit their columns.
--
-- Not modelled: contexts, spans and log lines; what OpenTelemetry, slog, aws-sdk-go, database/sql
-- and the Prometheus client do behind the calls that are modelled; flag.Parse and the delivery of
-- signals; the text of the web page, which is an argument; the script scripts/genpng, which writes
-- a test image.
pub mod Prelude
pub mod Models
pub mod Storage
pub mod Breaker
pub mod RateLimit
pub mod Http
pub mod Queue
pub mod Handler
pub mod Processor
pub mod Worker
pub mod Recording
pub mod BuildInfo
pub mod Commands
pub mod Config
pub mod Logging
pub mod Metrics
pub mod ObjectStore
pub mod Router
pub mod System
pub mod Tests
