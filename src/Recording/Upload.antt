-- ===== src/Recording/Upload.antt =====
-- UploadAvatar of internal/handler/handler.go in any environment.
use avatars.Prelude.{
  ℕ, ◌≡◌, ◌≢◌, ◌↔◌, String, Bool, true, false, ◌||◌, none, [], ◌∷◌, arith, eq_refl, ◌==◌,
}
use avatars.Models.{status_pending}
use avatars.Handler.{Bytes, Handler}
use avatars.Handler.Files.{detect_content_type}
use avatars.Handler.Upload.{
  UploadRequest, rejected, accepted, upload_checks, staging_key_of, pending_avatar, process_message,
  upload_avatar,
}
use avatars.Http.{write_json, Response, error_response, upload_response}
use avatars.Recording.{Acts, uploaded, upserted, published, deleted, counted, recorded_handler}

unfoldable pub was_stored : Acts → Bool
was_stored [] = false
was_stored (uploaded _ _ _ none ∷ _) = true
was_stored (_ ∷ acts) = was_stored acts

unfoldable pub was_published : Acts → Bool
was_published [] = false
was_published (published _ none ∷ _) = true
was_published (_ ∷ acts) = was_published acts

-- The deletion of this one key was asked for.
unfoldable pub was_deleted : String → Acts → Bool
was_deleted key [] = false
was_deleted key (deleted (k ∷ []) _ ∷ acts) = k == key || was_deleted key acts
was_deleted key (_ ∷ acts) = was_deleted key acts

module _ {W : Type 0} (h : Handler W) (message_id : String) (r : UploadRequest) (w : W) where
  abbrev pub response_to : Response
  response_to = (upload_avatar (recorded_handler h) message_id r (w, [])).0

  abbrev pub acts_of : Acts
  acts_of = (upload_avatar (recorded_handler h) message_id r (w, [])).1.1

  -- A request that its checks reject makes no call but the count of a failed upload, and gets the
  -- status and the reason of the check.
  pub upload_avatar-rejected :
      (status : ℕ) (reason : String)
      → upload_checks h.max_upload r ≡ rejected status reason
      → (response_to ≡ record { status = status; body = error_response reason })
        × (acts_of ≡ counted "error" ∷ [])
  unfolding upload_avatar write_json
  upload_avatar-rejected status reason e = ground arith

  module _ (user_id filename : String) (content : Bytes)
      (passed : upload_checks h.max_upload r ≡ accepted user_id filename content) where
    -- An accepted request is answered 202 exactly when its calls are these, in this order: the upload
    -- of the file, the write of the metadata and the publishing of the message, which all succeed,
    -- and the count. The metadata and the message name the key of the file.
    pub upload_avatar-202 :
        (response_to
          ≡ record { status = 202; body = upload_response user_id status_pending message_id })
        ↔ (acts_of
            ≡ counted "success"
              ∷ published (process_message user_id message_id) none
              ∷ upserted (pending_avatar user_id message_id) none
              ∷ uploaded
                  (staging_key_of user_id message_id)
                  content
                  (detect_content_type content filename)
                  none
              ∷ [])
    unfolding upload_avatar write_json
    upload_avatar-202 = ground arith

    -- Any other answer to an accepted request is 500; no message was taken by the broker, and if the
    -- file was stored then its deletion was asked for.
    pub upload_avatar-500 :
        response_to.status ≢ 202
        → (response_to.status ≡ 500)
          × (was_published acts_of ≡ false)
          × (was_stored acts_of ≡ was_deleted (staging_key_of user_id message_id) acts_of)
    unfolding upload_avatar write_json was_published was_stored was_deleted
    upload_avatar-500 e = ground (arith, eq_refl (staging_key_of user_id message_id))
