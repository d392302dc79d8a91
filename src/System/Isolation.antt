-- ===== src/System/Isolation.antt =====
-- One user's requests and messages against another user's row.
use avatars.Prelude.{
  String, ◌≡◌, ◌≢◌, refl, ◌∙◌, arith, lookup, ok, Failure, message, Option-cases, Result-cases, inl,
  inr, trim_space,
}
use avatars.Models.{status_processing, status_failed}
use avatars.Storage.Postgres
use avatars.Storage.Postgres.{Postgres}
use avatars.Storage.Reads.{upsert_frame, delete_frame, update_frame, ready_frame}
use avatars.Handler.{Bytes, Handler}
use avatars.Handler.Upload.{UploadRequest, pending_avatar, upload_checks, upload_avatar}
use avatars.Handler.Avatars.{get_avatar, delete_avatar, to_response}
use avatars.Processor.{Codec, ProcessedImage, process}
use avatars.Queue.{AvatarProcessMessage}
use avatars.Worker.{ObjectStore, original_key_of, thumb_key_of, handle}
use avatars.System.OverPostgres.{over_postgres, api_over_postgres}

get_frame : (k : String) (p : Postgres) → (Postgres.get_avatar k p).1.avatars ≡ p.avatars
unfolding Postgres.get_avatar
get_frame k p = ground arith

get-rows :
    {X : Type 0} (h : Handler X) (p : Postgres) (x : X) (user_id : String)
    → (get_avatar (api_over_postgres h) user_id (p, x)).1.0.avatars ≡ p.avatars
unfolding get_avatar to_response
get-rows h p x user_id = ground (arith, get_frame (trim_space user_id) p)

module _ {X : Type 0} (h : Handler X) (j : String) (p : Postgres) (x : X) where
  delete-others :
      (user_id : String)
      → trim_space user_id ≢ j
      → lookup j (delete_avatar (api_over_postgres h) user_id (p, x)).1.0.avatars
        ≡ lookup j p.avatars
  unfolding delete_avatar
  delete-others user_id differ =
      let k = trim_space user_id in
      ground (arith, get_frame k p, delete_frame differ (Postgres.get_avatar k p).1)

  upload-others :
      (message_id : String) (r : UploadRequest)
      → trim_space r.user_id ≢ j
      → lookup j (upload_avatar (api_over_postgres h) message_id r (p, x)).1.0.avatars
        ≡ lookup j p.avatars
  unfolding upload_avatar upload_checks
  upload-others message_id r differ =
      let k = trim_space r.user_id in
      let a = pending_avatar k message_id in
      ground (
        arith,
        upsert_frame differ a p refl,
        update_frame differ status_failed "failed to enqueue processing"
            (Postgres.upsert_avatar a p).1,
      )

module _ {X : Type 0} (c : Codec) (objects : ObjectStore X) (msg : AvatarProcessMessage)
    (j : String) (differ : msg.user_id ≢ j) (p : Postgres) (x : X) where
  abbrev started : Postgres
  started = (Postgres.update_avatar_status msg.user_id status_processing "" p).1

  abbrev HandleKeeps : Type 0
  HandleKeeps =
      lookup j (handle c (over_postgres objects) msg (p, x)).1.0.avatars ≡ lookup j p.avatars

  begin_others : lookup j started.avatars ≡ lookup j p.avatars
  begin_others = update_frame differ status_processing "" p

  fail_others :
      (e : Failure)
      → lookup j
          (Postgres.update_avatar_status msg.user_id status_failed (message e) started).1.avatars
        ≡ lookup j p.avatars
  fail_others e = update_frame differ status_failed (message e) started ∙ begin_others

  ready_others :
      (image : ProcessedImage)
      → lookup j
          (Postgres.mark_avatar_ready msg.user_id
            (original_key_of msg.user_id)
            (thumb_key_of msg.user_id)
            image.content_type
            image.size_bytes
            image.width
            image.height
            started).1.avatars
        ≡ lookup j p.avatars
  ready_others image =
      ready_frame differ (original_key_of msg.user_id) (thumb_key_of msg.user_id) image.content_type
        image.size_bytes image.width image.height started
      ∙ begin_others

  stored-others :
      (content : Bytes) (image : ProcessedImage)
      → (objects.download msg.staging_key x).0 ≡ ok content
      → process c content ≡ ok image
      → HandleKeeps
  unfolding handle
  stored-others content image read good =
      let w = (objects.download msg.staging_key x).1 in
      let original =
        objects.upload (original_key_of msg.user_id) image.original_png "image/png" w in
      let thumb =
        objects.upload (thumb_key_of msg.user_id) image.thumbnail_png "image/png" original.1 in
      elim (Option-cases original.0) [
        | inr (e, lost) ↦ ground (arith, begin_others, fail_others e)
        | inl original_ok ↦ elim (Option-cases thumb.0) [
          | inr (e, lost) ↦ ground (arith, begin_others, fail_others e)
          | inl thumb_ok ↦ ground (arith, begin_others, ready_others image)
        ]
      ]

  handle-others : HandleKeeps
  unfolding handle
  handle-others = elim (Result-cases (objects.download msg.staging_key x).0) [
    | inr (e, lost) ↦ ground (arith, begin_others, fail_others e)
    | inl (content, read) ↦ elim (Result-cases (process c content)) [
      | inr (e, bad) ↦ ground (arith, begin_others, fail_others e)
      | inl (image, good) ↦ stored-others content image read good
    ]
  ]

-- Over PostgreSQL, with statements that may fail, and whatever the object store and the broker answer:
-- no upload, deletion or message of one user changes the row of another user, and a get of any user,
-- also of its own, changes no row.
pub program-others :
    {X : Type 0} (h : Handler X) (c : Codec) (objects : ObjectStore X)
    (message_id deleted_id read_id : String) (r : UploadRequest) (msg : AvatarProcessMessage)
    (j : String) (p : Postgres) (x : X)
    → trim_space r.user_id ≢ j
    → trim_space deleted_id ≢ j
    → msg.user_id ≢ j
    → (lookup j (upload_avatar (api_over_postgres h) message_id r (p, x)).1.0.avatars
        ≡ lookup j p.avatars)
      × (lookup j (delete_avatar (api_over_postgres h) deleted_id (p, x)).1.0.avatars
          ≡ lookup j p.avatars)
      × ((get_avatar (api_over_postgres h) read_id (p, x)).1.0.avatars ≡ p.avatars)
      × (lookup j (handle c (over_postgres objects) msg (p, x)).1.0.avatars ≡ lookup j p.avatars)
program-others h c objects message_id deleted_id read_id r msg j p x uploads deletes handles = (
  upload-others h j p x message_id r uploads,
  delete-others h j p x deleted_id deletes,
  get-rows h p x read_id,
  handle-others c objects msg j handles p x,
)
