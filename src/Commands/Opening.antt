-- ===== src/Commands/Opening.antt =====
-- What telemetry.Init, NewPostgresStorage and queue.Connect are to the two programs: the operations of
-- Resources by those of their own components.
use avatars.Prelude.{ℕ, ◌+◌, ◌-◌, String, Bool, true, List, [], none, some, Error, Result, ok, err}
use avatars.Logging.Startup.{Provider, tracer, logs, Setup, init, shut_down}
use avatars.Storage.Opening.{Database, new_postgres_storage}
use avatars.Queue.Connection.{Dialer, connect}
use avatars.ObjectStore.{Config}
use avatars.Commands.{Resources}

-- What the components call; `endpoint` is OTEL_EXPORTER_OTLP_ENDPOINT.
pub record Calls (W : Type 0) : Type 0 where
  pub setup : Setup W
  pub endpoint : String
  pub database : Database W
  pub dialer : Dialer W
  -- objectstore.NewClient, which opens nothing
  pub new_client : Config → W → Error × W
  pub start_storage_poller : W → W

-- The providers stand beside the state: the function that Init returns holds them.
abbrev pub Held : Type 0 → Type 0
Held W = W × List Provider

module _ {W : Type 0} where
  abbrev pub with_held {ℓ} : {A : Type ℓ} → (W → A × W) → Held W → A × Held W
  with_held f (w, held) = let (a, w1) = f w in (a, (w1, held))

  abbrev pub effect_held : (W → W) → Held W → Held W
  effect_held f (w, held) = (f w, held)

  abbrev begun : Result (List Provider) × W → List Provider → Error × Held W
  begun (err e, w) held = (some e, (w, held))
  begun (ok providers, w) held = (none, (w, providers))

  -- The program's resources; store.Close is the pool's Close, whose error is dropped.
  abbrev pub resources_of : Calls W → Resources (Held W)
  resources_of c = record {
    init_telemetry = λ name level s. begun (init c.setup c.endpoint name level s.0) s.1;
    shutdown_telemetry = λ s. (shut_down c.setup s.1 s.0, []);
    new_store = λ dsn. with_held (new_postgres_storage c.database dsn);
    close_store = effect_held (λ w. (c.database.close w).1);
    new_client = λ cfg. with_held (c.new_client cfg);
    connect = λ url. with_held (connect c.dialer url);
    close_channel = effect_held c.dialer.close_channel;
    close_connection = effect_held c.dialer.close_connection;
    start_storage_poller = effect_held c.start_storage_poller;
  }

-- What is open: telemetry providers, pools of database connections, connections to the broker and
-- channels; and whether the log exporter could not be made.
pub record Open : Type 0 where
  pub tracers : ℕ
  pub loggers : ℕ
  pub refused : Bool
  pub pools : ℕ
  pub connections : ℕ
  pub channels : ℕ

abbrev opening : Error → ℕ → ℕ
opening none n = n + 1
opening (some _) n = n

abbrev refusing : Error → Bool → Bool
refusing none b = b
refusing (some _) b = true

abbrev provider_stopped : Provider → Open → Open
provider_stopped tracer o = record o { tracers = o.tracers - 1 }
provider_stopped logs o = record o { loggers = o.loggers - 1 }

module _ {W : Type 0} where
  abbrev pub lift {ℓ} : {A : Type ℓ} → (W → A × W) → W × Open → A × (W × Open)
  lift f (w, o) = let (a, w1) = f w in (a, (w1, o))

  abbrev noting : (Error → Open → Open) → (W → Error × W) → W × Open → Error × (W × Open)
  noting note f (w, o) = let (e, w1) = f w in (e, (w1, note e o))

  abbrev pub changing : (Open → Open) → (W → W) → W × Open → W × Open
  changing change f (w, o) = (f w, change o)

  -- The same calls, with what is open counted at each.
  abbrev pub counted_setup : Setup W → Setup (W × Open)
  counted_setup s = record {
    new_resource = λ name. lift (s.new_resource name);
    new_trace_exporter = lift s.new_trace_exporter;
    set_tracer =
        λ exports. changing (λ o. record o { tracers = o.tracers + 1 }) (s.set_tracer exports);
    new_log_exporter =
        noting (λ e o. record o { refused = refusing e o.refused }) s.new_log_exporter;
    new_logs = changing (λ o. record o { loggers = o.loggers + 1 }) s.new_logs;
    set_logger = λ multi level name. changing (λ o. o) (s.set_logger multi level name);
    shutdown = λ p. noting (λ _. provider_stopped p) (s.shutdown p);
  }

  abbrev pub counted_database : Database W → Database (W × Open)
  counted_database db = record {
    open_db = λ dsn. noting (λ e o. record o { pools = opening e o.pools }) (db.open_db dsn);
    ping = lift db.ping;
    close = noting (λ _ o. record o { pools = o.pools - 1 }) db.close;
    open_connections = λ s. db.open_connections s.0;
    set_connections = λ n. changing (λ o. o) (db.set_connections n);
  }

  abbrev pub counted_dialer : Dialer W → Dialer (W × Open)
  counted_dialer d = record {
    dial = λ url. noting (λ e o. record o { connections = opening e o.connections }) (d.dial url);
    open_channel = noting (λ e o. record o { channels = opening e o.channels }) d.open_channel;
    close_channel = changing (λ o. record o { channels = o.channels - 1 }) d.close_channel;
    close_connection =
        changing (λ o. record o { connections = o.connections - 1 }) d.close_connection;
    ch = record {
      exchange_declare = λ name kind. lift (d.ch.exchange_declare name kind);
      queue_declare = λ name args. lift (d.ch.queue_declare name args);
      queue_bind = λ queue key exchange. lift (d.ch.queue_bind queue key exchange);
    };
  }

  abbrev pub counted : Calls W → Calls (W × Open)
  counted c = record {
    setup = counted_setup c.setup;
    endpoint = c.endpoint;
    database = counted_database c.database;
    dialer = counted_dialer c.dialer;
    new_client = λ cfg. lift (c.new_client cfg);
    start_storage_poller = changing (λ o. o) c.start_storage_poller;
  }
