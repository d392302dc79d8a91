-- ===== src/Tests/Programs.antt =====
-- Examples for the consuming loop, the exit codes and the start of telemetry.
use avatars.Prelude.{
  ◌≡◌, refl, ◌||◌, ◌==◌, none, some, true, String, err, message, List, [], ◌∷◌, ◌++◌, other, ℕ, ◌+◌,
  trim_space, if◌then◌else◌,
}
use avatars.Storage.Mem.{MemStorage}
use avatars.Queue.Consumer.{ConsumeChannel, Delivery, closed, returned, waiting, consume}
use avatars.Queue.Consumer.Stopping.{all_delivered, handle_all, consume-returned}
use avatars.Commands.Opening.{Calls}
use avatars.Commands.Closing.{left, api_end, worker_end, run-left}
use avatars.Commands.Codes.{code_of, api_run, worker_run, run-code}
use avatars.Logging.Startup.{Setup, init, left_running, init-left_running}
use avatars.Config.{config_path, path_of_args, env_string}
use avatars.Config.App.{resolve, read_app_json}
use avatars.Commands.{run_api, run_worker}
use avatars.Commands.Launch.{Launch, exited, panicked, launch_api, launch_worker}
use avatars.Tests.Env.{mem, consumer_with, delivery}
use avatars.Tests.Systems.{failing_api, failing_worker, with_database}

abbrev channel : ConsumeChannel MemStorage
channel = record { qos = λ _ m. (none, m); consume = λ _ m. (none, m) }

abbrev deliveries : List Delivery
deliveries = delivery ∷ delivery ∷ []

consume-returned_example :
    (consume (consumer_with none) channel (all_delivered deliveries ++ closed ∷ []) mem
      ≡ (returned none, handle_all (consumer_with none) deliveries mem))
    × (consume (consumer_with none) channel (all_delivered deliveries) mem
        ≡ (waiting, handle_all (consumer_with none) deliveries mem))
consume-returned_example =
    consume-returned (consumer_with none) channel mem deliveries closed [] none refl refl refl

run-code_example :
    ((api_run "avatars" with_database 0 failing_api).0
      ≡ code_of ("postgres://db" == "" || (api_run "avatars" with_database 0 failing_api).1.1))
    × ((worker_run "avatars" with_database 0 failing_worker).0
        ≡ code_of
            ("postgres://db" == "" || (worker_run "avatars" with_database 0 failing_worker).1.1))
run-code_example = run-code "avatars" with_database 0 failing_api failing_worker

-- A log exporter that cannot be made.
abbrev half_way : Setup ℕ
half_way = record {
  new_resource = λ _ n. (none, n);
  new_trace_exporter = λ n. (none, n);
  set_tracer = λ _ n. n;
  new_log_exporter = λ n. (some (other "bad endpoint"), n);
  new_logs = λ n. n;
  set_logger = λ _ _ _ n. n;
  shutdown = λ _ n. (none, n);
}

-- A database and a broker that can be reached.
abbrev calls : Calls ℕ
calls = record {
  setup = half_way;
  endpoint = "otel:4317";
  database = record {
    open_db = λ _ n. (none, n);
    ping = λ n. (none, n);
    close = λ n. (none, n);
    open_connections = λ _. 1;
    set_connections = λ _ n. n;
  };
  dialer = record {
    dial = λ _ n. (none, n);
    open_channel = λ n. (none, n);
    close_channel = λ n. n;
    close_connection = λ n. n;
    ch = record {
      exchange_declare = λ _ _ n. (none, n);
      queue_declare = λ _ _ n. (none, n);
      queue_bind = λ _ _ _ n. (none, n);
    };
  };
  new_client = λ _ n. (none, n);
  start_storage_poller = λ n. n;
}

-- The same with log records on the standard error alone.
abbrev plain_calls : Calls ℕ
plain_calls = record calls { endpoint = "" }

run-left_example :
    (api_end plain_calls "avatars" with_database 0 failing_api
      ≡ left (api_end plain_calls "avatars" with_database 0 failing_api).refused)
    × (worker_end plain_calls "avatars" with_database 0 failing_worker
        ≡ left (worker_end plain_calls "avatars" with_database 0 failing_worker).refused)
run-left_example = run-left plain_calls "avatars" with_database 0 failing_api failing_worker

-- With an exporter that cannot be made the API fails at Init.
refused_at_init : api_end calls "avatars" with_database 0 failing_api ≡ left true
unfolding run_api init trim_space
refused_at_init = refl

init-left_running_example :
    ((left_running half_way "otel:4317" "avatars" "info" 0).loggers ≡ 0)
    × ((left_running half_way "otel:4317" "avatars" "info" 0).tracers
        ≡ (if (left_running half_way "otel:4317" "avatars" "info" 0).refused then 1 else 0))
init-left_running_example = init-left_running half_way "otel:4317" "avatars" "info" 0

-- Its tracer provider runs on.
runs_on : (left_running half_way "otel:4317" "avatars" "info" 0).tracers ≡ 1
unfolding init trim_space
runs_on = refl

-- A program with a database and, in the second case, a configuration file that does not exist.
abbrev launch_with : List String → Launch
launch_with args = record {
  build = record { version = "1.2"; date = ""; commit = "" };
  files = record {
    read_file = λ _. err (other "no such file");
    unmarshal = λ _. err (other "no JSON");
  };
  env = λ _. none;
  args = args;
  flags = record { a = none; l = none; d = some "postgres://db"; rabbitmq_url = none };
}

-- The state counts the prints.
abbrev print : String → ℕ → ℕ
print _ n = n + 1

launch_tests :
    (launch_api print failing_api (launch_with []) 0 ≡ exited 1 1)
    × (launch_worker print failing_worker (launch_with []) 0 ≡ exited 1 1)
    × (launch_api print failing_api (launch_with ("-c=a.json" ∷ [])) 0
        ≡ panicked "failed to load config: read config file: no such file" 1)
unfolding launch_api launch_worker run_api run_worker resolve config_path path_of_args env_string
    read_app_json message
launch_tests = (refl, refl, refl)
