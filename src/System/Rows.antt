-- ===== src/System/Rows.antt =====
-- The table `avatars` of internal/storage/postgres.go as the handlers of internal/handler/handler.go and
-- the worker of internal/worker/service.go leave it: which rows are good, and which calls they make.
pub mod Keeping
pub mod Calls
use avatars.Prelude.{
  ℕ, String, Bool, true, false, ◌&&◌, ◌||◌, ◌==◌, List, [], ◌∷◌, Assoc, Error, leb, if◌then◌else◌,
}
use avatars.Models.{
  Avatar, valid_status, status_pending, status_processing, status_ready, status_failed,
}
use avatars.Handler.Upload.{staging_key_of}
use avatars.Worker.{original_key_of, thumb_key_of}
use avatars.Storage.Ops.{
  Op, upsert, get, remove, is_processed, mark_processed, set_status, mark_ready, perform,
}
use avatars.Storage.Postgres.{Postgres, Row, postgres_storage}

abbrev pub is_image : String → Bool
is_image t = t == "image/jpeg" || t == "image/png" || t == "image/webp"

-- A side of a processed image.
abbrev pub is_side : ℕ → Bool
is_side n = leb 1 n && leb n 512

abbrev pub is_absent_or : String → String → Bool
is_absent_or key own = key == "" || key == own

-- What the row of a ready avatar is like.
abbrev pub is_complete : String → Row → Bool
is_complete user_id r =
    r.original_key == original_key_of user_id
    && r.thumbnail_key == thumb_key_of user_id
    && r.staging_key == ""
    && is_side r.width
    && is_side r.height
    && is_image r.content_type

-- A row's keys are its user's own or absent.
unfoldable pub is_own : String → Row → Bool
is_own user_id r =
    r.user_id == user_id
    && is_absent_or r.staging_key (staging_key_of user_id r.message_id)
    && is_absent_or r.original_key (original_key_of user_id)
    && is_absent_or r.thumbnail_key (thumb_key_of user_id)

-- A row's status is one of the four, and a ready one is complete.
unfoldable pub is_consistent : String → Row → Bool
is_consistent user_id r =
    valid_status r.status && (if r.status == status_ready then is_complete user_id r else true)

unfoldable pub good_row : String → Row → Bool
good_row user_id r = is_own user_id r && is_consistent user_id r

unfoldable pub good_rows : Assoc Row → Bool
good_rows [] = true
good_rows ((user_id, r) ∷ rows) = good_row user_id r && good_rows rows

-- The calls that the program makes: a pending avatar without processed files is upserted, the status
-- becomes "processing" or "failed", and what is made ready has its user's keys and a processed image's
-- sides and type.
unfoldable pub is_made : Op → Bool
is_made (upsert a) =
    a.status == status_pending
    && a.staging_key == staging_key_of a.user_id a.message_id
    && a.original_key == ""
    && a.thumbnail_key == ""
is_made (set_status _ status _) = status == status_processing || status == status_failed
is_made (mark_ready user_id original thumb content_type _ width height) =
    original == original_key_of user_id
    && thumb == thumb_key_of user_id
    && is_image content_type
    && is_side width
    && is_side height
is_made (get _) = true
is_made (remove _) = true
is_made (is_processed _) = true
is_made (mark_processed _) = true
