-- ===== src/Logging/Levels.antt =====
-- The two readings of a log level.
use avatars.Prelude.{
  String, ◌≡◌, ◌⊎◌, inl, inr, refl, ◌==◌, ◌||◌, ok, err, eq_iff, to_lower, trim_space, Bool-cases,
}
use avatars.Logging.{info, invalid_level, logger_level, telemetry_level}

-- The logger and telemetry read every text as the same level, but for those that the logger refuses,
-- which telemetry reads as the level info.
pub logger_level-telemetry_level :
    (level : String)
    → (logger_level level ≡ ok (telemetry_level level))
      ⊎ ((logger_level level ≡ err invalid_level) × (telemetry_level level ≡ info))
unfolding logger_level telemetry_level
logger_level-telemetry_level level =
    let l = to_lower (trim_space level) in
    elim (Bool-cases (l == "debug")) [
      | inl e ↦ inl (rw e refl)
      | inr not_debug ↦ elim (Bool-cases (l == "info")) [
        | inl e ↦ inl (rw ((eq_iff l "info").0 e) refl)
        | inr not_info ↦ elim (Bool-cases (l == "")) [
          | inl e ↦ inl (rw ((eq_iff l "").0 e) refl)
          | inr not_empty ↦ elim (Bool-cases (l == "warn" || l == "warning")) [
            | inl e ↦ inl (rw (not_debug, not_info, not_empty, e) refl)
            | inr not_warn ↦ elim (Bool-cases (l == "error")) [
              | inl e ↦ inl (rw (not_debug, not_info, not_empty, not_warn, e) refl)
              | inr not_error ↦
                  inr (rw (not_debug, not_info, not_empty, not_warn, not_error) (refl, refl))
            ]
          ]
        ]
      ]
    ]
