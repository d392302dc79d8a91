-- ===== src/System/Uploading.antt =====
-- An accepted upload over the storage in memory: what is stored and sent.
use avatars.Prelude.{ℤ, ◌≡◌, String, some, arith, lookup, lookup-insert, eq_refl}
use avatars.Models.{status_pending}
use avatars.Http.{Response, upload_response, write_json}
use avatars.Storage.Mem
use avatars.Storage.Mem.{MemStorage, mem_storage, stamped}
use avatars.Handler.{Bytes, new_handler}
use avatars.Handler.Upload.{
  UploadRequest, accepted, upload_checks, upload_avatar, staging_key_of, pending_avatar,
  process_message,
}
use avatars.Queue.Retry.{Table, publish_avatar_process}
use avatars.Queue.Consumer.{Delivery}
use avatars.System.{World, Json, api, latest}

-- The message of an accepted upload, as it is delivered.
abbrev pub message : Json → Table → String → String → Delivery
message json injected user_id message_id = record {
  body = json.marshal (process_message user_id message_id);
  message_id = message_id;
  headers = injected;
}

module _ (json : Json) (injected : Table) (max_upload : ℤ) (message_id : String) (r : UploadRequest)
    (w : World MemStorage) where
  abbrev pub uploading : Response × World MemStorage
  uploading = upload_avatar (api mem_storage json injected max_upload) message_id r w

  pub uploading-stored :
      (user_id filename : String) (content : Bytes)
      → upload_checks (api mem_storage json injected max_upload).max_upload r
        ≡ accepted user_id filename content
      → (uploading.0
          ≡ record { status = 202; body = upload_response user_id status_pending message_id })
        × (lookup user_id uploading.1.db.avatars
            ≡ some (stamped w.db.now (pending_avatar user_id message_id)))
        × (lookup (staging_key_of user_id message_id) uploading.1.files ≡ some content)
        × (latest uploading.1 ≡ some (message json injected user_id message_id))
        × (uploading.1.db.processed ≡ w.db.processed)
        × (uploading.1.db.now ≡ w.db.now)
        × (uploading.1.acked ≡ w.acked)
  unfolding upload_avatar Mem.upsert_avatar write_json publish_avatar_process new_handler
  uploading-stored user_id filename content passed = ground (
    arith,
    passed,
    lookup-insert user_id user_id (stamped w.db.now (pending_avatar user_id message_id))
        w.db.avatars,
    lookup-insert (staging_key_of user_id message_id) (staging_key_of user_id message_id) content
        w.files,
    eq_refl user_id,
    eq_refl (staging_key_of user_id message_id),
  )
