-- ===== src/Http.antt =====
-- The requests and responses of net/http that the handlers use. A response is its status code and
-- its body, where a JSON body is the value that writeJSON encodes.
use avatars.Prelude.{ℕ, String}
use avatars.Models.{ProcessingStatus}

-- internal/handler/handler.go: `avatarResponse`
pub record AvatarResponse : Type 0 where
  pub user_id : String
  pub status : ProcessingStatus
  pub content_type : String
  pub size_bytes : ℕ
  pub width : ℕ
  pub height : ℕ
  pub error_message : String
  pub original_url : String
  pub thumbnail_url : String
  pub created_at : ℕ
  pub updated_at : ℕ

-- `errorResponse` and `uploadResponse` (user id, status, message id) are constructors.
pub data Body : Type 0 where
  no_body : Body
  plain : String → Body
  error_response : String → Body
  upload_response : String → ProcessingStatus → String → Body
  avatar_response : AvatarResponse → Body

pub record Response : Type 0 where
  pub status : ℕ
  pub body : Body

-- What the middleware reads of a request.
pub record Request : Type 0 where
  pub method : String
  pub path : String

unfoldable pub write_json : ℕ → Body → Response
write_json status v = record { status = status; body = v }
