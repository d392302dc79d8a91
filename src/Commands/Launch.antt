-- ===== src/Commands/Launch.antt =====
-- `run` of cmd/api/main.go and cmd/worker/main.go whole, from printBuildInfo to the exit code, and
-- shutdownSignals, which is the same in both. `flag.Parse` gives the flags; the delivery of a signal
-- ends `serve` and `consume`.
use Prim.Native.String as Str
use avatars.Prelude.{
  ℕ, String, List, [], ◌∷◌, ◌++◌, ◌==◌, ◌≡◌, refl, Option, none, some, Result, ok, err, message,
  Failure, ap, if◌then◌else◌,
}
use avatars.BuildInfo.{Build, print_build_info}
use avatars.Config.{Env}
use avatars.Config.App.{AppOptions, Files, Flags, resolve}
use avatars.Commands.{Api, WorkerProgram, service_name, run_api, run_worker}

pub data Signal : Type 0 where
  interrupt sigterm sigquit : Signal

-- The signals that end a program, by runtime.GOOS.
unfoldable pub shutdown_signals : String → List Signal
shutdown_signals goos =
    let sigs = interrupt ∷ sigterm ∷ [] in
    if goos == "windows" then sigs else (sigs ++ (sigquit ∷ []))

-- What a program is started with.
pub record Launch : Type 0 where
  pub build : Build
  pub files : Files
  pub env : Env
  pub args : List String
  pub flags : Flags

-- os.Getenv of what os.LookupEnv finds
getenv : Option String → String
getenv none = ""
getenv (some value) = value

-- How `run` ends.
pub data Outcome (W : Type 0) : Type 0 where
  exited : ℕ → W → Outcome W
  panicked : String → W → Outcome W

module _ {W : Type 0} (print : String → W → W) where
  resumed : (AppOptions → W → ℕ × W) → Result AppOptions → W → Outcome W
  resumed program (ok opts) w = let (code, w1) = program opts w in exited code w1
  resumed program (err e) w = panicked (Str.◌++◌ "failed to load config: " (message e)) w

  -- The build information, the options, and the rest with them.
  launched : (AppOptions → W → ℕ × W) → Launch → W → Outcome W
  unfolding resumed
  launched program l w =
      resumed program (resolve l.files l.env l.args l.flags) (print (print_build_info l.build) w)

  -- OTEL_SERVICE_NAME, or the program's own name
  name_in : Env → String → String
  unfolding getenv service_name
  name_in env fallback = service_name (getenv (env "OTEL_SERVICE_NAME")) fallback

  unfoldable pub launch_api : Api W → Launch → W → Outcome W
  unfolding launched name_in
  launch_api api l = launched (run_api api (name_in l.env "avatars-api")) l

  unfoldable pub launch_worker : WorkerProgram W → Launch → W → Outcome W
  unfolding launched name_in
  launch_worker worker l = launched (run_worker worker (name_in l.env "avatars-worker")) l

shutdown_signals_tests :
    (shutdown_signals "linux" ≡ interrupt ∷ sigterm ∷ sigquit ∷ [])
    × (shutdown_signals "windows" ≡ interrupt ∷ sigterm ∷ [])
unfolding shutdown_signals
shutdown_signals_tests = (refl, refl)

launched-panicked :
    {W : Type 0} (print : String → W → W) (program : AppOptions → W → ℕ × W) (l : Launch) (w : W)
    (e : Failure)
    → resolve l.files l.env l.args l.flags ≡ err e
    → launched print program l w
      ≡ panicked
          (Str.◌++◌ "failed to load config: " (message e))
          (print (print_build_info l.build) w)
unfolding launched
launched-panicked print program l w e unread =
    ap (λ r. resumed print program r (print (print_build_info l.build) w)) unread

-- A configuration that cannot be read makes both programs panic, when they have printed the build
-- information and done nothing else.
launch-panicked :
    {W : Type 0} (print : String → W → W) (api : Api W) (worker : WorkerProgram W) (l : Launch)
    (w : W) (e : Failure)
    → resolve l.files l.env l.args l.flags ≡ err e
    → let out =
        panicked
          (Str.◌++◌ "failed to load config: " (message e))
          (print (print_build_info l.build) w) in
      (launch_api print api l w ≡ out) × (launch_worker print worker l w ≡ out)
unfolding launch_api launch_worker
launch-panicked print api worker l w e unread =
    (launched-panicked print _ l w e unread, launched-panicked print _ l w e unread)
