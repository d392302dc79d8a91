-- ===== src/Logging.antt =====
-- internal/logger/logger.go and internal/telemetry/telemetry.go: the log levels, and the handler that
-- writes to several others.
pub mod Levels
pub mod Loggers
pub mod Startup
use avatars.Prelude.{
  ℕ, String, Bool, true, false, ◌||◌, ◌==◌, leb, List, [], ◌∷◌, Option, none, some, Error, Failure,
  other, trim_space, to_lower, Result, ok, err, if◌then◌else◌,
}

pub data Level : Type 0 where
  debug info warn error : Level

abbrev pub invalid_level : Failure
invalid_level = other "invalid log level"

-- Of the logger: the level, or errInvalidLevel.
unfoldable pub logger_level : String → Result Level
logger_level level =
    let l = to_lower (trim_space level) in
    if l == "debug"
    then ok debug
    else if l == "info" || l == ""
    then ok info
    else if l == "warn" || l == "warning"
    then ok warn
    else if l == "error"
    then ok error
    else err invalid_level

-- Of telemetry: any other text is the level info.
unfoldable pub telemetry_level : String → Level
telemetry_level level =
    let l = to_lower (trim_space level) in
    if l == "debug"
    then debug
    else if l == "warn" || l == "warning"
    then warn
    else if l == "error"
    then error
    else info

-- slog.Handler over states `W`, with records of type `R`, which have a level.
pub record LogHandler (W R : Type 0) : Type 0 where
  pub enabled : Level → Bool
  pub handle : R → W → Error × W

module _ {W R : Type 0} (level_of : R → Level) where
  unfoldable pub any_enabled : List (LogHandler W R) → Level → Bool
  any_enabled [] level = false
  any_enabled (h ∷ handlers) level =
      let rest = any_enabled handlers level in h.enabled level || rest

  -- The loop of multiHandler.Handle.
  unfoldable pub handle_all : List (LogHandler W R) → R → W → Error × W
  handle_all [] r w = (none, w)
  handle_all (h ∷ handlers) r w =
      let skipped = handle_all handlers r w in
      let (e, w1) = h.handle r w in
      let later = handle_all handlers r w1 in
      if h.enabled (level_of r) then (elim e [ some x ↦ (some x, w1) | none ↦ later ]) else skipped
