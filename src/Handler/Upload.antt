-- ===== src/Handler/Upload.antt =====
-- UploadAvatar of internal/handler/handler.go. The request's checks come first and change nothing;
-- then come the calls of the object store, the storage and the publisher, in the source's order.
pub mod Checks
use Prim.Native.String as Str
use avatars.Prelude.{
  ℕ, ◌+◌, ◌%◌, ◌^◌, Bool, false, String, not, none, some, [], ◌∷◌, ◌==◌, eqb, ltb, length, take,
  trim_space, Error, if◌then◌else◌,
}
use avatars.Models.{Avatar, zero_avatar, status_pending, status_failed}
use avatars.Http.{Response, Body, error_response, upload_response, write_json}
use avatars.Queue.{AvatarProcessMessage}
use avatars.Handler.{Bytes, Handler}
use avatars.Handler.Files.{allowed_extension, detect_content_type}

-- What ParseMultipartForm, FormFile("file") and the reading of the file come to, when the body's
-- limit is not met: a body that is not multipart by its headers (ErrNotMultipart, which comes before
-- any limit), a form that does not parse, no such field, a file that cannot be read, or the file's name
-- and content.
pub data Form : Type 0 where
  not_multipart malformed no_file unreadable : Form
  file : String → Bytes → Form

-- `user_id` is r.PathValue("user_id"); `body_read` is how many bytes the multipart parser reads of the
-- body before it stops, when no limit is set.
pub record UploadRequest : Type 0 where
  pub user_id : String
  pub body_read : ℕ
  pub form : Form

pub data Checked : Type 0 where
  rejected : ℕ → String → Checked
  accepted : String → String → Bytes → Checked

-- h.maxUpload is an int64 that is positive; a sum wraps, and is then negative. The readers take a
-- negative limit for 0.
limit_of : ℕ → ℕ
limit_of sum = let bits = sum % 2 ^ 64 in if ltb bits (2 ^ 63) then bits else 0

-- The limit of MaxBytesReader, h.maxUpload + multipartOverhead.
unfoldable pub body_limit : ℕ → ℕ
unfolding limit_of
body_limit max_upload = limit_of (max_upload + 1024)

-- The limit of LimitReader, h.maxUpload + 1.
unfoldable pub file_limit : ℕ → ℕ
unfolding limit_of
file_limit max_upload = limit_of (max_upload + 1)

file_checks : ℕ → String → String → Bytes → Checked
file_checks max_upload user_id filename content =
    let read = take (file_limit max_upload) content in
    if eqb (length read) 0
    then rejected 400 "empty file"
    else if ltb max_upload (length read)
    then rejected 413 "file too large"
    else if not (allowed_extension filename)
    then rejected 400 "unsupported file extension"
    else accepted user_id filename read

form_checks : ℕ → String → Form → Checked
form_checks max_upload user_id not_multipart = rejected 400 "invalid multipart form"
form_checks max_upload user_id malformed = rejected 400 "invalid multipart form"
form_checks max_upload user_id no_file = rejected 400 "file field required"
form_checks max_upload user_id unreadable = rejected 400 "failed to read file"
form_checks max_upload user_id (file filename content) =
    file_checks max_upload user_id filename content

-- The multipart parser meets the limit of the body: a MaxBytesError.
is_too_large : Form → ℕ → ℕ → Bool
is_too_large not_multipart limit read = false
is_too_large malformed limit read = ltb limit read
is_too_large no_file limit read = ltb limit read
is_too_large unreadable limit read = ltb limit read
is_too_large (file _ _) limit read = ltb limit read

unfoldable pub upload_checks : ℕ → UploadRequest → Checked
unfolding body_limit file_limit file_checks form_checks is_too_large
upload_checks max_upload r =
    let user_id = trim_space r.user_id in
    if user_id == ""
    then rejected 400 "user_id required"
    else if is_too_large r.form (body_limit max_upload) r.body_read
    then rejected 413 "request too large"
    else form_checks max_upload user_id r.form

-- fmt.Sprintf("staging/%s/%s", userID, messageID)
abbrev pub staging_key_of : String → String → String
staging_key_of user_id message_id = Str.◌++◌ "staging/" (Str.◌++◌ user_id (Str.◌++◌ "/" message_id))

-- The avatar and the message of an accepted upload.
abbrev pub pending_avatar : String → String → Avatar
pending_avatar user_id message_id = record zero_avatar {
  user_id = user_id;
  status = status_pending;
  staging_key = staging_key_of user_id message_id;
  message_id = message_id;
}

abbrev pub process_message : String → String → AvatarProcessMessage
process_message user_id message_id = record {
  message_id = message_id;
  user_id = user_id;
  staging_key = staging_key_of user_id message_id;
}

module _ {W : Type 0} (h : Handler W) where
  -- A return: the response, and the deferred count under `label`.
  respond : String → ℕ → Body → W → Response × W
  respond label status body w = (write_json status body, h.metrics.count_upload label w)

  fail : String → W → Response × W
  fail reason = respond "error" 500 (error_response reason)

  enqueued : String → String → Error → W → Response × W
  enqueued user_id message_id none w =
      respond "success" 202 (upload_response user_id status_pending message_id) w
  enqueued user_id message_id (some _) w =
      let (_, w1) = h.objects.delete (staging_key_of user_id message_id ∷ []) w in
      let (_, w2) =
        h.store.update_avatar_status user_id status_failed "failed to enqueue processing" w1 in
      fail "failed to enqueue processing" w2

  saved : String → String → Error → W → Response × W
  saved user_id message_id (some _) w =
      let (_, w1) = h.objects.delete (staging_key_of user_id message_id ∷ []) w in
      fail "failed to save metadata" w1
  saved user_id message_id none w =
      let (err, w1) = h.publisher.publish_avatar_process (process_message user_id message_id) w in
      enqueued user_id message_id err w1

  stored : String → String → Error → W → Response × W
  stored user_id message_id (some _) w = fail "failed to store upload" w
  stored user_id message_id none w =
      let (err, w1) = h.store.upsert_avatar (pending_avatar user_id message_id) w in
      saved user_id message_id err w1

  checked : String → Checked → W → Response × W
  checked message_id (rejected status reason) w = respond "error" status (error_response reason) w
  checked message_id (accepted user_id filename content) w =
      let (err, w1) =
        h.objects.upload (staging_key_of user_id message_id) content
          (detect_content_type content filename) w in
      stored user_id message_id err w1

  -- UploadAvatar; `message_id` is what uuid.NewString returns.
  unfoldable pub upload_avatar : String → UploadRequest → W → Response × W
  unfolding respond fail enqueued saved stored checked
  upload_avatar message_id r = checked message_id (upload_checks h.max_upload r)
