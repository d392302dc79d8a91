-- ===== src/Logging/Startup.antt =====
-- Init of internal/telemetry/telemetry.go: what it sets up in which order, and the function that it
-- returns. Exporters, providers and slog's default logger are those of OpenTelemetry and slog.
use avatars.Prelude.{
  ℕ, ◌+◌, ◌-◌, String, Bool, true, false, not, ◌==◌, ◌≡◌, none, some, List, [], ◌∷◌, Error, Result,
  ok, err, trim_space, arith, if◌then◌else◌,
}
use avatars.Logging.{Level, telemetry_level}

pub data Provider : Type 0 where
  tracer logs : Provider

-- Two booleans tell whether a tracer provider exports, and whether the default logger is the multi
-- handler or stderr alone.
pub record Setup (W : Type 0) : Type 0 where
  pub new_resource : String → W → Error × W
  pub new_trace_exporter : W → Error × W
  -- NewTracerProvider, SetTracerProvider and SetTextMapPropagator
  pub set_tracer : Bool → W → W
  pub new_log_exporter : W → Error × W
  -- NewLoggerProvider
  pub new_logs : W → W
  -- SetDefault, with the attribute "service"
  pub set_logger : Bool → Level → String → W → W
  pub shutdown : Provider → W → Error × W

module _ {W : Type 0} (s : Setup W) where
  -- The function that Init returns; errors are dropped.
  unfoldable pub shut_down : List Provider → W → W
  shut_down [] w = w
  shut_down (p ∷ ps) w = let (_, w1) = s.shutdown p w in shut_down ps w1

  log_exported : Level → String → Error → W → Result (List Provider) × W
  log_exported level name (some e) w = (err e, w)
  log_exported level name none w =
      (ok (tracer ∷ logs ∷ []), s.set_logger true level name (s.new_logs w))

  traced : Bool → Level → String → W → Result (List Provider) × W
  traced exports level name w =
      let w1 = s.set_tracer exports w in
      let (e, w2) = s.new_log_exporter w1 in
      if exports
      then log_exported level name e w2
      else (ok (tracer ∷ []), s.set_logger false level name w1)

  trace_exported : Level → String → Error → W → Result (List Provider) × W
  trace_exported level name (some e) w = (err e, w)
  trace_exported level name none w = traced true level name w

  resourced : Bool → Level → String → Error → W → Result (List Provider) × W
  resourced exports level name (some e) w = (err e, w)
  resourced exports level name none w =
      let (e, w1) = s.new_trace_exporter w in
      if exports then trace_exported level name e w1 else traced false level name w

  -- Init; `endpoint` is the environment variable OTEL_EXPORTER_OTLP_ENDPOINT. The result is what the
  -- returned function shuts down.
  unfoldable pub init : String → String → String → W → Result (List Provider) × W
  unfolding log_exported traced trace_exported resourced
  init endpoint name log_level w =
      let exports = not (trim_space endpoint == "") in
      let (e, w1) = s.new_resource name w in resourced exports (telemetry_level log_level) name e w1

-- How many tracer and logger providers run, and whether the log exporter could not be made.
pub record Running : Type 0 where
  pub tracers : ℕ
  pub loggers : ℕ
  pub refused : Bool

abbrev pub idle : Running
idle = record { tracers = 0; loggers = 0; refused = false }

abbrev noted : Error → Running → Running
noted none r = r
noted (some _) r = record r { refused = true }

abbrev stopped : Provider → Running → Running
stopped tracer r = record r { tracers = r.tracers - 1 }
stopped logs r = record r { loggers = r.loggers - 1 }

module _ {W : Type 0} where
  abbrev beside :
      (Error → Running → Running) → (W → Error × W) → W × Running → Error × (W × Running)
  beside note f (w, r) = let (e, w1) = f w in (e, (w1, note e r))

  -- The same setup, with its providers counted while they run.
  abbrev pub counted : Setup W → Setup (W × Running)
  counted s = record {
    new_resource = λ name. beside (λ _ r. r) (s.new_resource name);
    new_trace_exporter = beside (λ _ r. r) s.new_trace_exporter;
    set_tracer = λ exports (w, r). (s.set_tracer exports w, record r { tracers = r.tracers + 1 });
    new_log_exporter = beside noted s.new_log_exporter;
    new_logs = λ (w, r). (s.new_logs w, record r { loggers = r.loggers + 1 });
    set_logger = λ multi level name (w, r). (s.set_logger multi level name w, r);
    shutdown = λ p. beside (λ _. stopped p) (s.shutdown p);
  }

module _ {W : Type 0} (s : Setup W) (endpoint name log_level : String) (w : W) where
  abbrev pub begun : Result (List Provider) × (W × Running)
  begun = init (counted s) endpoint name log_level (w, idle)

  -- What runs when Init has failed, or has succeeded and the function that it returned has been called.
  abbrev pub left_running : Running
  left_running = elim begun.0 [
    | err _ ↦ begun.1.1
    | ok providers ↦ (shut_down (counted s) providers begun.1).1
  ]

  -- When Init has failed, or has succeeded and the function that it returned has been called, no
  -- provider is left running, whatever fails, except where the log exporter could not be made: then
  -- the tracer provider is.
  pub init-left_running :
      (left_running.loggers ≡ 0) × (left_running.tracers ≡ (if left_running.refused then 1 else 0))
  unfolding init shut_down
  init-left_running = (ground arith, ground arith)
