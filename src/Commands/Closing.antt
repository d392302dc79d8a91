-- ===== src/Commands/Closing.antt =====
-- What is left open when the programs of cmd/api/main.go and cmd/worker/main.go end.
use avatars.Prelude.{
  ℕ, String, Bool, false, List, [], ◌≡◌, ◌∙◌, refl, ap, sym, none, some, arith, Error, Failure,
  Option-cases, inl, inr, if◌then◌else◌,
}
use avatars.Config.App.{AppOptions}
use avatars.Logging.Startup.{Provider, init, shut_down}
use avatars.Storage.Opening.{new_postgres_storage}
use avatars.Queue.Connection.{connect}
use avatars.Queue.Topology.{declare, until_error}
use avatars.Commands.{
  Resources, Api, WorkerProgram, attempt, deferring, required, opened, with_store, ended, stopped,
  working, s3_config, run_api, run_worker,
}
use avatars.Commands.Opening.{
  Calls, Held, Open, with_held, effect_held, resources_of, lift, changing, counted,
}

-- Nothing is open, but for a tracer provider where the log exporter could not be made.
abbrev pub left : Bool → Open
left refused = record {
  tracers = if refused then 1 else 0;
  loggers = 0;
  refused = refused;
  pools = 0;
  connections = 0;
  channels = 0;
}

module _ {W : Type 0} where
  -- What is open and which providers are held, in a state of a program.
  abbrev pub books : Held (W × Open) → Open × List Provider
  books s = (s.0.1, s.1)

  abbrev Keeps {ℓ} : {A : Type ℓ} → (Held (W × Open) → A × Held (W × Open)) → Type 0
  Keeps f = (s : Held (W × Open)) → books (f s).1 ≡ books s

  -- A step that succeeds may open something, which `close` closes again.
  abbrev Opens :
      (Held (W × Open) → Error × Held (W × Open)) → (Held (W × Open) → Held (W × Open)) → Type 0
  Opens f close =
      (s : Held (W × Open))
      → ((e : Failure) → (f s).0 ≡ some e → books (f s).1 ≡ books s)
        × ((f s).0 ≡ none
            → (t : Held (W × Open)) → books t ≡ books (f s).1
            → books (close t) ≡ books s)

  attempt-Keeps :
      (f : Held (W × Open) → Error × Held (W × Open)) (rest : Held (W × Open) → ℕ × Held (W × Open))
      → Keeps f
      → Keeps rest
      → Keeps (attempt f rest)
  unfolding attempt
  attempt-Keeps f rest first later s = elim (Option-cases (f s).0) [
    | inl fine ↦ rw (attempt, fine) (later (f s).1 ∙ first s)
    | inr (e, fails) ↦ rw (attempt, fails) (first s)
  ]

  deferring-Keeps :
      (f : Held (W × Open) → Error × Held (W × Open)) (close : Held (W × Open) → Held (W × Open))
      (rest : Held (W × Open) → ℕ × Held (W × Open))
      → Opens f close
      → Keeps rest
      → Keeps (deferring f close rest)
  unfolding attempt deferring
  deferring-Keeps f close rest opens later s = elim (Option-cases (f s).0) [
    | inl fine ↦ rw (deferring, attempt, fine) ((opens s).1 fine (rest (f s).1).1 (later (f s).1))
    | inr (e, fails) ↦ rw (deferring, attempt, fails) ((opens s).0 e fails)
  ]

  module _ (c : Calls W) where
    abbrev rs : Resources (Held (W × Open))
    rs = resources_of (counted c)

    new_store-Opens : (dsn : String) → Opens (rs.new_store dsn) rs.close_store
    unfolding new_postgres_storage
    new_store-Opens dsn ((w, o), held) = (λ e h. ground arith, λ h t same. ground arith)

    connect-Opens :
        (url : String) → Opens (rs.connect url) (λ w. rs.close_connection (rs.close_channel w))
    unfolding connect declare until_error
    connect-Opens url ((w, o), held) = (λ e h. ground arith, λ h t same. ground arith)

    required-Keeps : (dsn : String) → Keeps (required {W = Held (W × Open)} dsn)
    unfolding required
    required-Keeps dsn s = refl

    module _ (name level : String) (w : W) where
      abbrev begun : Error × Held (W × Open)
      begun = rs.init_telemetry name level ((w, left false), [])

      init-failed : (e : Failure) → begun.0 ≡ some e → begun.1.0.1 ≡ left begun.1.0.1.refused
      unfolding init
      init-failed e fails = ground arith

      init-closed :
          begun.0 ≡ none
          → (t : Held (W × Open)) → books t ≡ books begun.1
          → (rs.shutdown_telemetry t).0.1 ≡ left false
      unfolding init shut_down
      init-closed fine t same = ground arith

      -- Init, then steps that leave the books as they are, then what Init returned.
      telemetry-left :
          (rest : Held (W × Open) → ℕ × Held (W × Open))
          → Keeps rest
          → let s =
              (deferring
                (rs.init_telemetry name level)
                rs.shutdown_telemetry
                rest
                ((w, left false), [])).1 in
            s.0.1 ≡ left s.0.1.refused
      unfolding attempt deferring
      telemetry-left rest later = elim (Option-cases begun.0) [
        | inr (e, fails) ↦ rw (deferring, attempt, fails) (init-failed e fails)
        | inl fine ↦
            let closed = init-closed fine (rest begun.1).1 (later begun.1) in
            rw (deferring, attempt, fine) (closed ∙ ap (λ (o : Open). left o.refused) (sym closed))
      ]

    module _ (name : String) (opts : AppOptions) where
      opened-Keeps :
          (body : Held (W × Open) → ℕ × Held (W × Open))
          → Keeps body
          → Keeps (opened rs name opts body)
      unfolding opened
      opened-Keeps body later =
          deferring-Keeps (rs.connect opts.rabbitmq_url)
            (λ w. rs.close_connection (rs.close_channel w)) body (connect-Opens opts.rabbitmq_url)
            later

      with_store-left :
          (rest : Held (W × Open) → ℕ × Held (W × Open)) (w : W)
          → Keeps rest
          → let s = (with_store rs name opts rest ((w, left false), [])).1 in
            s.0.1 ≡ left s.0.1.refused
      unfolding with_store
      with_store-left rest w later =
          let made = attempt-Keeps (rs.new_client (s3_config opts)) rest (λ s. refl) later in
          let stored =
            deferring-Keeps (rs.new_store opts.database_dsn) rs.close_store
              (attempt (rs.new_client (s3_config opts)) rest) (new_store-Opens opts.database_dsn)
              made in
          telemetry-left name opts.log_level w
            (attempt (required opts.database_dsn) (
              deferring (rs.new_store opts.database_dsn) rs.close_store
                (attempt (rs.new_client (s3_config opts)) rest)))
            (attempt-Keeps (required opts.database_dsn)
              (deferring (rs.new_store opts.database_dsn) rs.close_store
                (attempt (rs.new_client (s3_config opts)) rest))
              (required-Keeps opts.database_dsn) stored)

  -- The programs with these resources in place of their own.
  abbrev pub api_with : Calls W → Api W → Api (Held (W × Open))
  api_with c a = record {
    resources = resources_of (counted c);
    ensure_bucket = with_held (lift a.ensure_bucket);
    serve = λ address. with_held (lift (a.serve address));
    shutdown_server = with_held (lift a.shutdown_server);
  }

  abbrev pub worker_with : Calls W → WorkerProgram W → WorkerProgram (Held (W × Open))
  worker_with c p = record {
    resources = resources_of (counted c);
    management = p.management;
    start_depth_poller = effect_held (changing (λ o. o) p.start_depth_poller);
    start_metrics_server =
        λ address. effect_held (changing (λ o. o) (p.start_metrics_server address));
    consume = with_held (lift p.consume);
    shutdown_server = with_held (lift p.shutdown_server);
  }

  module _ (c : Calls W) (name : String) (opts : AppOptions) (w : W) where
    abbrev pub api_end : Api W → Open
    api_end a = (run_api (api_with c a) name opts ((w, left false), [])).1.0.1

    abbrev pub worker_end : WorkerProgram W → Open
    worker_end p = (run_worker (worker_with c p) name opts ((w, left false), [])).1.0.1

    api_left : (a : Api W) → api_end a ≡ left (api_end a).refused
    unfolding run_api ended
    api_left a =
        let served = λ (s : Held (W × Open)).
          ended (api_with c a)
            ((api_with c a).serve opts.address ((rs c).start_storage_poller s)) in
        let served_keeps : Keeps served = λ s. ground arith in
        with_store-left c name opts
          (attempt (api_with c a).ensure_bucket (opened (rs c) name opts served)) w
          (attempt-Keeps (api_with c a).ensure_bucket (opened (rs c) name opts served) (λ s. refl)
            (opened-Keeps c name opts served served_keeps))

    worker_left : (p : WorkerProgram W) → worker_end p ≡ left (worker_end p).refused
    unfolding run_worker stopped working
    worker_left p =
        let worked_keeps : Keeps (working (worker_with c p) opts) = λ s. ground arith in
        with_store-left c name opts (opened (rs c) name opts (working (worker_with c p) opts)) w
          (opened-Keeps c name opts (working (worker_with c p) opts) worked_keeps)

    -- When the API or the worker returns its exit code, whichever call fails and however the server or
    -- the consumer ends, nothing that Init, NewPostgresStorage and Connect opened is left open: no
    -- logger provider, no pool of database connections, no connection and no channel, and no tracer
    -- provider but where the log exporter could not be made; there Init leaves its tracer provider
    -- running.
    pub run-left :
        (a : Api W) (p : WorkerProgram W)
        → (api_end a ≡ left (api_end a).refused) × (worker_end p ≡ left (worker_end p).refused)
    run-left a p = (api_left a, worker_left p)
