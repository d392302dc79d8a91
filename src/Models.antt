-- ===== src/Models.antt =====
-- internal/models/avatar.go: the avatar's metadata and its processing status.
use avatars.Prelude.{ℕ, String, Bool, ◌||◌, ◌==◌}

-- Go's `type ProcessingStatus string`: any text, with four constants.
abbrev pub ProcessingStatus : Type 0
ProcessingStatus = String

abbrev pub status_pending : ProcessingStatus
status_pending = "pending"

abbrev pub status_processing : ProcessingStatus
status_processing = "processing"

abbrev pub status_ready : ProcessingStatus
status_ready = "ready"

abbrev pub status_failed : ProcessingStatus
status_failed = "failed"

unfoldable pub valid_status : ProcessingStatus → Bool
valid_status s =
    s == status_pending || s == status_processing || s == status_ready || s == status_failed

-- Times are nanoseconds since Go's zero time, so `IsZero` is the test for 0.
pub record Avatar : Type 0 where
  pub user_id : String
  pub status : ProcessingStatus
  pub staging_key : String
  pub original_key : String
  pub thumbnail_key : String
  pub content_type : String
  pub size_bytes : ℕ
  pub width : ℕ
  pub height : ℕ
  pub error_message : String
  pub message_id : String
  pub created_at : ℕ
  pub updated_at : ℕ

-- The zero value of `models.Avatar`, which a composite literal starts from.
abbrev pub zero_avatar : Avatar
zero_avatar = record {
  user_id = "";
  status = "";
  staging_key = "";
  original_key = "";
  thumbnail_key = "";
  content_type = "";
  size_bytes = 0;
  width = 0;
  height = 0;
  error_message = "";
  message_id = "";
  created_at = 0;
  updated_at = 0;
}
