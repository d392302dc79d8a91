-- ===== src/Handler/Avatars.antt =====
-- GetAvatar, DeleteAvatar, Ping and toResponse of internal/handler/handler.go.
use avatars.Prelude.{
  ℕ, String, Bool, true, false, Option, none, some, [], ◌∷◌, ◌==◌, trim_space, Error, Failure,
  not_found, open_circuit, other, wrap, Result, ok, err, if◌then◌else◌,
}
use avatars.Models.{Avatar, status_ready}
use avatars.Http.{
  Response, AvatarResponse, no_body, plain, error_response, avatar_response, write_json,
}
use avatars.Breaker
use avatars.Breaker.{Breaker}
use avatars.Handler.{Handler}

error_json : ℕ → String → Response
error_json status reason = write_json status (error_response reason)

-- The fields that toResponse copies; the URLs are empty.
unfoldable pub response_of : Avatar → AvatarResponse
response_of a = record {
  user_id = a.user_id;
  status = a.status;
  content_type = a.content_type;
  size_bytes = a.size_bytes;
  width = a.width;
  height = a.height;
  error_message = a.error_message;
  original_url = "";
  thumbnail_url = "";
  created_at = a.created_at;
  updated_at = a.updated_at;
}

-- errors.Is(err, resilience.ErrOpen)
unfoldable pub is_open_error : Failure → Bool
is_open_error not_found = false
is_open_error open_circuit = true
is_open_error (other _) = false
is_open_error (wrap _ e) = is_open_error e

pinged : Error → Response
pinged none = record { status = 200; body = plain "ok" }
pinged (some e) =
    if is_open_error e
    then error_json 503 "database circuit open"
    else error_json 500 "database unavailable"

module _ {W : Type 0} (h : Handler W) where
  -- toResponse; where it returns an error, the response beside it is not used.
  unfoldable pub to_response : Avatar → W → Result AvatarResponse × W
  unfolding response_of
  to_response a w =
      let resp = response_of a in
      if a.status == status_ready
      then (let (original, w1) = h.objects.presigned_url a.original_key h.url_expiry w in
          elim original [
            | err e ↦ (err e, w1)
            | ok original_url ↦
                (let (thumb, w2) = h.objects.presigned_url a.thumbnail_key h.url_expiry w1 in
                  elim thumb [
                    | err e ↦ (err e, w2)
                    | ok thumb_url ↦ (
                      ok (record resp { original_url = original_url; thumbnail_url = thumb_url }),
                      w2,
                    )
                  ])
          ])
      else (ok resp, w)

  got : Result (Option Avatar) → W → Response × W
  got (err _) w = (error_json 500 "failed to get avatar", w)
  got (ok none) w = (error_json 404 "avatar not found", w)
  got (ok (some a)) w =
      let (resp, w1) = to_response a w in
      elim resp [
        | err _ ↦ (error_json 500 "failed to build response", w1)
        | ok r ↦ (write_json 200 (avatar_response r), w1)
      ]

  -- GetAvatar; the argument is r.PathValue("user_id").
  unfoldable pub get_avatar : String → W → Response × W
  unfolding error_json to_response got
  get_avatar path_value w =
      let user_id = trim_space path_value in
      if user_id == ""
      then (error_json 400 "user_id required", w)
      else (let (found, w1) = h.store.get_avatar user_id w in got found w1)

  metadata_deleted : Error → W → Response × W
  metadata_deleted none w = (record { status = 204; body = no_body }, w)
  metadata_deleted (some not_found) w = (error_json 404 "avatar not found", w)
  metadata_deleted (some _) w = (error_json 500 "failed to delete metadata", w)

  files_deleted : String → Error → W → Response × W
  files_deleted user_id (some _) w = (error_json 500 "failed to delete files", w)
  files_deleted user_id none w =
      let (e, w1) = h.store.delete_avatar user_id w in metadata_deleted e w1

  found_to_delete : String → Result (Option Avatar) → W → Response × W
  found_to_delete user_id (err _) w = (error_json 500 "failed to get avatar", w)
  found_to_delete user_id (ok none) w = (error_json 404 "avatar not found", w)
  found_to_delete user_id (ok (some a)) w =
      let (e, w1) = h.objects.delete (a.staging_key ∷ a.original_key ∷ a.thumbnail_key ∷ []) w in
      files_deleted user_id e w1

  unfoldable pub delete_avatar : String → W → Response × W
  unfolding error_json metadata_deleted files_deleted found_to_delete
  delete_avatar path_value w =
      let user_id = trim_space path_value in
      if user_id == ""
      then (error_json 400 "user_id required", w)
      else (let (found, w1) = h.store.get_avatar user_id w in found_to_delete user_id found w1)

  -- Ping; `entered` and `left` are the breaker's readings of the clock.
  unfoldable pub ping : ℕ → ℕ → W → Response × Handler W × W
  unfolding error_json is_open_error pinged
  ping entered left w =
      let (e, b, w1) = Breaker.call h.store.ping entered left h.db_breaker w in
      (pinged e, record h { db_breaker = b }, w1)
