-- ===== src/Handler.antt =====
-- internal/handler/handler.go: the interfaces of the handlers and what they hold. Upload and
-- Avatars model the routes, and Files what they read off a file.
pub mod Files
pub mod Upload
pub mod Avatars
pub mod Pings
use avatars.Prelude.{ℕ, ◌+◌, ◌*◌, ◌^◌, ℤ, pos, String, List, Error, Result, positive_or}
use avatars.Queue.{AvatarProcessMessage}
use avatars.Storage.{Storage}
use avatars.Breaker.{Breaker, new_breaker}

-- The bytes of a file.
abbrev pub Bytes : Type 0
Bytes = List ℕ

pub record ObjectStore (W : Type 0) : Type 0 where
  pub upload : String → Bytes → String → W → Error × W
  pub delete : List String → W → Error × W
  pub presigned_url : String → ℕ → W → Result String × W

pub record Publisher (W : Type 0) : Type 0 where
  pub publish_avatar_process : AvatarProcessMessage → W → Error × W

-- `count_upload status` is what the deferred function of UploadAvatar does: it increments
-- UploadsTotal and observes the time in UploadDuration, under the label `status`.
pub record Metrics (W : Type 0) : Type 0 where
  pub count_upload : String → W → W

pub record Handler (W : Type 0) : Type 0 where
  pub store : Storage W
  pub objects : ObjectStore W
  pub publisher : Publisher W
  pub metrics : Metrics W
  pub max_upload : ℕ
  pub url_expiry : ℕ
  pub db_breaker : Breaker

-- NewHandler; a limit that is not positive becomes 5 MiB. Durations are in nanoseconds.
unfoldable pub new_handler :
    {W : Type 0} → Storage W → ObjectStore W → Publisher W → Metrics W → ℤ → Handler W
unfolding positive_or new_breaker
new_handler store objects publisher metrics max_upload = record {
  store = store;
  objects = objects;
  publisher = publisher;
  metrics = metrics;
  max_upload = positive_or (5 * 1024 * 1024) max_upload;
  url_expiry = 15 * 60 * 10 ^ 9;
  db_breaker = new_breaker (pos 5) (pos (30 * 10 ^ 9));
}
