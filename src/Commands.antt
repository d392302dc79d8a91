-- ===== src/Commands.antt =====
-- `run` of cmd/api/main.go and cmd/worker/main.go, from the resolved options on: what is opened in
-- which order, the deferred closing, and the exit code. Log lines, the routes and the metrics pages
-- are left out; signal.NotifyContext is part of `serve` and `consume`.
pub mod Closing
pub mod Codes
pub mod Launch
pub mod Opening
use avatars.Prelude.{ℕ, String, ◌==◌, none, some, Error, Failure, other, if◌then◌else◌}
use avatars.Config.App.{AppOptions}
use avatars.ObjectStore.{Config}

-- What both programs open, and its closing: `init_telemetry` is telemetry.Init, `new_store` is
-- NewPostgresStorage, `new_client` is objectstore.NewClient, `connect` is queue.Connect. Opening makes
-- this record by the definitions of those.
pub record Resources (W : Type 0) : Type 0 where
  -- service name, log level
  pub init_telemetry : String → String → W → Error × W
  pub shutdown_telemetry : W → W
  pub new_store : String → W → Error × W
  pub close_store : W → W
  pub new_client : Config → W → Error × W
  pub connect : String → W → Error × W
  pub close_channel : W → W
  pub close_connection : W → W
  -- StartStorageUsagePoller
  pub start_storage_poller : W → W

-- `if err := f(); err != nil { return 1 }`, and what follows
unfoldable pub attempt : {W : Type 0} → (W → Error × W) → (W → ℕ × W) → W → ℕ × W
attempt f rest w = let (e, w1) = f w in elim e [ some _ ↦ (1, w1) | none ↦ rest w1 ]

-- The same, with `defer close()` behind it
unfoldable pub deferring : {W : Type 0} → (W → Error × W) → (W → W) → (W → ℕ × W) → W → ℕ × W
unfolding attempt
deferring open_it close rest = attempt open_it λ w. let (code, w1) = rest w in (code, close w1)

required : {W : Type 0} → String → W → Error × W
required dsn w = (if dsn == "" then some (other "database DSN is required") else none, w)

-- serviceName
unfoldable pub service_name : String → String → String
service_name name fallback = if name == "" then fallback else name

-- objectstore.Config{…}
unfoldable pub s3_config : AppOptions → Config
s3_config opts = record {
  endpoint = opts.s3_endpoint;
  public_endpoint = opts.s3_public_endpoint;
  bucket = opts.s3_bucket;
  region = opts.s3_region;
  access_key = opts.s3_access_key;
  secret_key = opts.s3_secret_key;
  use_ssl = opts.s3_use_ssl;
}

module _ {W : Type 0} (rs : Resources W) (name : String) (opts : AppOptions) where
  -- The part that the two programs share: `rest` is behind NewClient, `body` behind Connect.
  opened : (W → ℕ × W) → W → ℕ × W
  opened = deferring (rs.connect opts.rabbitmq_url) λ w. rs.close_connection (rs.close_channel w)

  with_store : (W → ℕ × W) → W → ℕ × W
  unfolding required
  with_store rest = deferring (rs.init_telemetry name opts.log_level) rs.shutdown_telemetry (
      attempt (required opts.database_dsn) (
        deferring (rs.new_store opts.database_dsn) rs.close_store
          (attempt (rs.new_client (s3_config opts)) rest)))

-- How the API server ends: it fails, or a signal arrives.
pub data Ended : Type 0 where
  server_failed : Failure → Ended
  signalled : Ended

pub record Api (W : Type 0) : Type 0 where
  pub resources : Resources W
  pub ensure_bucket : W → Error × W
  -- ListenAndServe at the address, until one of the two
  pub serve : String → W → Ended × W
  pub shutdown_server : W → Error × W

module _ {W : Type 0} (api : Api W) where
  ended : Ended × W → ℕ × W
  ended (server_failed _, w) = (1, w)
  ended (signalled, w) = attempt api.shutdown_server (λ w1. (0, w1)) w

  -- `name` is what serviceName returns.
  unfoldable pub run_api : String → AppOptions → W → ℕ × W
  unfolding attempt deferring opened with_store ended
  run_api name opts = with_store api.resources name opts (
      attempt api.ensure_bucket (
        opened api.resources name opts
          λ w. ended (api.serve opts.address (api.resources.start_storage_poller w))))

-- How the consuming loop ends: with nil, with context.Canceled, or with another error.
pub data Stopped : Type 0 where
  drained cancelled : Stopped
  stopped_by : Failure → Stopped

pub record WorkerProgram (W : Type 0) : Type 0 where
  pub resources : Resources W
  -- RabbitMQManagementFromURL with the options' fields
  pub management : AppOptions → Error
  pub start_depth_poller : W → W
  -- the metrics server, in its own goroutine
  pub start_metrics_server : String → W → W
  pub consume : W → Stopped × W
  pub shutdown_server : W → Error × W

module _ {W : Type 0} (worker : WorkerProgram W) where
  stopped : Stopped × W → ℕ × W
  stopped (stopped_by _, w) = (1, w)
  stopped (drained, w) = attempt worker.shutdown_server (λ w1. (0, w1)) w
  stopped (cancelled, w) = attempt worker.shutdown_server (λ w1. (0, w1)) w

  working : AppOptions → W → ℕ × W
  working opts =
      attempt (λ w. (worker.management opts, w))
        λ w. stopped (
          worker.consume (
            worker.start_metrics_server opts.metrics_address
              (worker.resources.start_storage_poller (worker.start_depth_poller w))))

  unfoldable pub run_worker : String → AppOptions → W → ℕ × W
  unfolding attempt deferring opened with_store stopped working
  run_worker name opts =
      with_store worker.resources name opts (opened worker.resources name opts (working opts))
