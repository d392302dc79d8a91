-- ===== src/Tests/Uploads.antt =====
-- Examples for the upload, the view and the deletion of avatars.
use avatars.Prelude.{
  ◌≡◌, ◌↔◌, refl, ◌⊎◌, none, some, [], ◌∷◌, arith, other, Error, true, false, trim_space, ext,
  to_lower, lookup, insert,
}
use avatars.Models.{Avatar, status_pending}
use avatars.Http.{AvatarResponse, upload_response, avatar_response, write_json}
use avatars.Storage.Mem
use avatars.Handler.Files.{allowed_extension, detect_content_type}
use avatars.Handler.Upload.{
  UploadRequest, accepted, file, malformed, upload_checks, upload_avatar, process_message,
  pending_avatar, staging_key_of,
}
use avatars.Handler.Upload.Checks.{IsAcceptable, upload_checks-accepted_iff}
use avatars.Recording.{counted, published, upserted, uploaded}
use avatars.Recording.Upload
use avatars.Handler.Avatars.{get_avatar}
use avatars.Recording.Avatars as Views
use avatars.Tests.Env.{mem, handler_with, jpeg_file}

abbrev request : UploadRequest
request = record { user_id = " ann "; body_read = 300; form = file "me.JPG" jpeg_file }

request_passes : upload_checks 4 request ≡ accepted "ann" "me.JPG" jpeg_file
unfolding upload_checks trim_space allowed_extension ext to_lower
request_passes = refl

upload_checks-accepted_iff_example :
    (upload_checks 4 request ≡ accepted "ann" "me.JPG" jpeg_file)
    ↔ IsAcceptable 4 request "ann" "me.JPG" jpeg_file
upload_checks-accepted_iff_example =
    upload_checks-accepted_iff 4 (omega arith) request "ann" "me.JPG" jpeg_file

upload_avatar-202_example :
    (Upload.response_to (handler_with none none) "m2" request mem
      ≡ record { status = 202; body = upload_response "ann" status_pending "m2" })
    ↔ (Upload.acts_of (handler_with none none) "m2" request mem
        ≡ counted "success"
          ∷ published (process_message "ann" "m2") none
          ∷ upserted (pending_avatar "ann" "m2") none
          ∷ uploaded
              (staging_key_of "ann" "m2")
              jpeg_file
              (detect_content_type jpeg_file "me.JPG")
              none
          ∷ [])
upload_avatar-202_example =
    Upload.upload_avatar-202 (handler_with none none) "m2" request mem "ann" "me.JPG" jpeg_file
      request_passes

-- A publisher that fails: the answer is 500.
unsent_status :
    (Upload.response_to (handler_with none (some (other "closed"))) "m2" request mem).status ≡ 500
unfolding upload_avatar write_json upload_checks trim_space allowed_extension ext to_lower
    Mem.upsert_avatar Mem.update_avatar_status Mem.stamped lookup insert detect_content_type
unsent_status = refl

upload_avatar-500_example :
    ((Upload.response_to (handler_with none (some (other "closed"))) "m2" request mem).status ≡ 500)
    × (Upload.was_published
          (Upload.acts_of (handler_with none (some (other "closed"))) "m2" request mem)
        ≡ false)
    × (Upload.was_stored
          (Upload.acts_of (handler_with none (some (other "closed"))) "m2" request mem)
        ≡ Upload.was_deleted
            (staging_key_of "ann" "m2")
            (Upload.acts_of (handler_with none (some (other "closed"))) "m2" request mem))
upload_avatar-500_example =
    Upload.upload_avatar-500 (handler_with none (some (other "closed"))) "m2" request mem "ann"
      "me.JPG" jpeg_file request_passes (omega (arith, unsent_status))

abbrev bad_form : UploadRequest
bad_form = record { user_id = "ann"; body_read = 3; form = malformed }

delete_avatar-204_example :
    (((Views.deletion (handler_with none none) "bob" mem).status ≡ 204)
      ↔ ((a : Avatar) × Views.IsDeletion (handler_with none none) "bob" mem a none))
    × (Views.metadata_asked (Views.deletion_acts (handler_with none none) "bob" mem) ≡ true
        → (a : Avatar) × (e : Error) × Views.IsDeletion (handler_with none none) "bob" mem a e)
delete_avatar-204_example = Views.delete_avatar-204 (handler_with none none) "bob" mem

abbrev view_of_bob : AvatarResponse
view_of_bob = record {
  user_id = "bob";
  status = "ready";
  content_type = "";
  size_bytes = 7;
  width = 0;
  height = 0;
  error_message = "";
  original_url = "avatars/bob/original.png";
  thumbnail_url = "avatars/bob/thumb.png";
  created_at = 6;
  updated_at = 0;
}

bob_is_viewed :
    Views.getting (handler_with none none) "bob" mem
    ≡ record { status = 200; body = avatar_response view_of_bob }
unfolding get_avatar write_json trim_space Mem.get_avatar lookup
bob_is_viewed = refl

get_avatar-200_example :
    (a : Avatar) × (Views.IsPlainView (handler_with none none) "bob" mem a view_of_bob
      ⊎ Views.IsReadyView (handler_with none none) "bob" mem a view_of_bob)
get_avatar-200_example =
    Views.get_avatar-200 (handler_with none none) "bob" mem view_of_bob bob_is_viewed
