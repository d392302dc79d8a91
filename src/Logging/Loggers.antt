-- ===== src/Logging/Loggers.antt =====
-- The multi handler's copies and the logger of a context in internal/telemetry/telemetry.go, and
-- Initialize of internal/logger/logger.go.
use avatars.Prelude.{String, ◌≡◌, refl, Option, none, some, List, [], ◌∷◌, Error, Result, ok, err}
use avatars.Logging.{Level, LogHandler, any_enabled, logger_level}

-- A handler of slog that can be copied with attributes (of type A) or a group.
pub record Copying (H A : Type 0) : Type 0 where
  pub with_attrs : List A → H → H
  pub with_group : String → H → H

module _ {H A : Type 0} (c : Copying H A) where
  -- multiHandler.WithAttrs and multiHandler.WithGroup
  unfoldable pub with_attrs_all : List A → List H → List H
  with_attrs_all attrs [] = []
  with_attrs_all attrs (h ∷ handlers) = c.with_attrs attrs h ∷ with_attrs_all attrs handlers

  unfoldable pub with_group_all : String → List H → List H
  with_group_all name [] = []
  with_group_all name (h ∷ handlers) = c.with_group name h ∷ with_group_all name handlers

-- A span's context, if it is valid: its trace id and its span id.
abbrev pub SpanContext : Type 0
SpanContext = Option (String × String)

abbrev span_attrs : SpanContext → List (String × String)
span_attrs none = []
span_attrs (some (trace_id, span_id)) = ("trace_id", trace_id) ∷ ("span_id", span_id) ∷ []

-- LoggerFromContext, for the default logger and slog's With.
unfoldable pub logger_from_context :
    {L : Type 0} → L → (List (String × String) → L → L) → SpanContext → L
logger_from_context default with sc = elim (span_attrs sc) [
  | [] ↦ default
  | attr ∷ attrs ↦ with (attr ∷ attrs) default
]

initialized : {W : Type 0} → (Level → W → W) → Result Level → W → Error × W
initialized set_default (err e) w = (some e, w)
initialized set_default (ok level) w = (none, set_default level w)

-- Initialize; `set_default` makes the JSON handler at a level the default.
unfoldable pub initialize : {W : Type 0} → (Level → W → W) → String → W → Error × W
unfolding initialized
initialize set_default level w = initialized set_default (logger_level level) w

-- Copies of handlers that are enabled as before make a multi handler that is enabled as before.
module _ {W R A : Type 0} (c : Copying (LogHandler W R) A) (level_of : R → Level) where
  pub any_enabled-with_attrs_all :
      (attrs : List A) (handlers : List (LogHandler W R)) (level : Level)
      → ((h : LogHandler W R) → (c.with_attrs attrs h).enabled level ≡ h.enabled level)
      → any_enabled level_of (with_attrs_all c attrs handlers) level
        ≡ any_enabled level_of handlers level
  unfolding any_enabled with_attrs_all
  any_enabled-with_attrs_all attrs [] level same = refl
  any_enabled-with_attrs_all attrs (h ∷ handlers) level same =
      rw (same h, any_enabled-with_attrs_all attrs handlers level same) refl
