-- ===== src/Commands/Codes.antt =====
-- The exit codes of cmd/api/main.go and cmd/worker/main.go.
use avatars.Prelude.{ℕ, String, Bool, true, false, ◌||◌, ◌==◌, ◌≡◌, none, some, arith, Error}
use avatars.Config.App.{AppOptions}
use avatars.Commands.{
  Resources, Api, Ended, server_failed, signalled, WorkerProgram, Stopped, drained, cancelled,
  stopped_by, run_api, run_worker,
}

abbrev failed : Error → Bool
failed none = false
failed (some _) = true

abbrev server_broke : Ended → Bool
server_broke (server_failed _) = true
server_broke signalled = false

abbrev loop_broke : Stopped → Bool
loop_broke (stopped_by _) = true
loop_broke drained = false
loop_broke cancelled = false

module _ {W : Type 0} where
  -- A call that notes whether its answer is a failure.
  abbrev noting {ℓ} : {A : Type ℓ} → (A → Bool) → (W → A × W) → W × Bool → A × (W × Bool)
  noting broke f (w, bad) = let (a, w1) = f w in (a, (w1, broke a || bad))

  abbrev quietly : (W → W) → W × Bool → W × Bool
  quietly f (w, bad) = (f w, bad)

  abbrev noted : Resources W → Resources (W × Bool)
  noted rs = record {
    init_telemetry = λ name level. noting failed (rs.init_telemetry name level);
    shutdown_telemetry = quietly rs.shutdown_telemetry;
    new_store = λ dsn. noting failed (rs.new_store dsn);
    close_store = quietly rs.close_store;
    new_client = λ cfg. noting failed (rs.new_client cfg);
    connect = λ url. noting failed (rs.connect url);
    close_channel = quietly rs.close_channel;
    close_connection = quietly rs.close_connection;
    start_storage_poller = quietly rs.start_storage_poller;
  }

  -- The same programs, with the note of a failed call beside the state.
  abbrev pub noted_api : Api W → Api (W × Bool)
  noted_api a = record {
    resources = noted a.resources;
    ensure_bucket = noting failed a.ensure_bucket;
    serve = λ address. noting server_broke (a.serve address);
    shutdown_server = noting failed a.shutdown_server;
  }

  abbrev pub noted_worker : WorkerProgram W → WorkerProgram (W × Bool)
  noted_worker p = record {
    resources = noted p.resources;
    management = p.management;
    start_depth_poller = quietly p.start_depth_poller;
    start_metrics_server = λ address. quietly (p.start_metrics_server address);
    consume = noting loop_broke p.consume;
    shutdown_server = noting failed p.shutdown_server;
  }

abbrev pub code_of : Bool → ℕ
code_of true = 1
code_of false = 0

module _ {W : Type 0} (name : String) (opts : AppOptions) (w : W) where
  abbrev pub api_run : Api W → ℕ × (W × Bool)
  api_run a = run_api (noted_api a) name opts (w, false)

  abbrev pub worker_run : WorkerProgram W → ℕ × (W × Bool)
  worker_run p = run_worker (noted_worker p) name opts (w, false)

  api_code : (a : Api W) → (api_run a).0 ≡ code_of (opts.database_dsn == "" || (api_run a).1.1)
  unfolding run_api
  api_code a = ground arith

  worker_code :
      (p : WorkerProgram W)
      → (worker_run p).0
        ≡ code_of (opts.database_dsn == "" || failed (p.management opts) || (worker_run p).1.1)
  unfolding run_worker
  worker_code p = ground arith

  -- The API and the worker exit with 1 when the database DSN is empty or a step that they ran failed,
  -- and with 0 else. The steps are those of the start, the serving, the consuming and the shutdown of
  -- the server; a consumer that was cancelled has not failed. The worker also exits with 1 when its
  -- management options are refused.
  pub run-code :
      (a : Api W) (p : WorkerProgram W)
      → ((api_run a).0 ≡ code_of (opts.database_dsn == "" || (api_run a).1.1))
        × ((worker_run p).0
            ≡ code_of (opts.database_dsn == "" || failed (p.management opts) || (worker_run p).1.1))
  run-code a p = (api_code a, worker_code p)
