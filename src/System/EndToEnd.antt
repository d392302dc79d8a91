-- ===== src/System/EndToEnd.antt =====
-- From an upload to the ready avatar, over the storage in memory.
use avatars.Prelude.{
  ℕ, suc, ℤ, ◌≡◌, refl, ◌∙◌, ap, String, ◌==◌, false, none, some, arith, lookup, lookup-insert,
  eq_refl, eq_iff, Bool-cases, inl, inr, ok, trim_space,
}
use avatars.Models.{Avatar, status_processing, status_ready}
use avatars.Http.{Response, AvatarResponse, avatar_response, write_json}
use avatars.Storage.Mem
use avatars.Storage.Mem.{MemStorage, mem_storage, with_status, made_ready, stamped}
use avatars.Handler.{Bytes, new_handler}
use avatars.Handler.Upload.{UploadRequest, accepted, upload_checks, pending_avatar, process_message}
use avatars.Handler.Avatars.{get_avatar, to_response, response_of}
use avatars.Processor.{Codec, ProcessedImage, process}
use avatars.Queue.{AvatarProcessMessage}
use avatars.Queue.Retry.{Table}
use avatars.Queue.Consumer.{Delivery, handle_delivery}
use avatars.Worker.{original_key_of, thumb_key_of, handle}
use avatars.System.{World, Json, api, consumer, service, sign, latest}
use avatars.System.Uploading.{uploading, message, uploading-stored}
use avatars.System.Working.{handle-made_ready}

-- A delivery of a message that is marked as processed is only acknowledged.
handle_delivery_known :
    (c : Codec) (json : Json) (d : Delivery) (msg : AvatarProcessMessage) (w : World MemStorage)
    (t : ℕ)
    → json.unmarshal d.body ≡ some msg
    → (msg.message_id == "") ≡ false
    → lookup msg.message_id w.db.processed ≡ some t
    → handle_delivery (consumer mem_storage json c) d w ≡ record w { acked = suc w.acked }
unfolding handle_delivery Mem.is_message_processed
handle_delivery_known c json d msg w t read named known = ground (arith, read, named, known)

-- The first delivery of a message whose avatar, staged file and processed form are at hand.
module _ (c : Codec) (json : Json) (d : Delivery) (msg : AvatarProcessMessage)
    (w : World MemStorage) (a : Avatar) (content : Bytes) (p : ProcessedImage)
    (read : json.unmarshal d.body ≡ some msg) (named : (msg.message_id == "") ≡ false)
    (unseen : lookup msg.message_id w.db.processed ≡ none)
    (stored : lookup msg.user_id w.db.avatars ≡ some a)
    (staged : lookup msg.staging_key w.files ≡ some content) (good : process c content ≡ ok p) where
  abbrev pub delivered : World MemStorage
  delivered = handle_delivery (consumer mem_storage json c) d w

  abbrev pub finished : Avatar
  finished =
      made_ready (original_key_of msg.user_id) (thumb_key_of msg.user_id) p.content_type
        p.size_bytes p.width p.height w.db.now (with_status status_processing "" w.db.now a)

  delivered-ready :
      (lookup msg.user_id delivered.db.avatars ≡ some finished)
      × (lookup msg.message_id delivered.db.processed ≡ some delivered.db.now)
      × (delivered.acked ≡ suc w.acked)
      × (delivered.sent ≡ w.sent)
  unfolding handle_delivery Mem.is_message_processed Mem.mark_message_processed
  delivered-ready =
      let out = (handle c (service mem_storage) msg w).1.db in
      ground (
        arith,
        handle-made_ready c msg w a content p stored staged good,
        read,
        named,
        unseen,
        lookup-insert msg.message_id msg.message_id out.now out.processed,
        eq_refl msg.message_id,
      )

-- The response of GetAvatar for a ready avatar.
module _ (json : Json) (injected : Table) (max_upload : ℤ) (w : World MemStorage)
    (path_value : String) (a : Avatar) (named : (trim_space path_value == "") ≡ false)
    (stored : lookup (trim_space path_value) w.db.avatars ≡ some a)
    (ready : a.status ≡ status_ready) where
  abbrev pub ready_view : AvatarResponse
  ready_view = record (response_of a) {
    original_url = sign a.original_key;
    thumbnail_url = sign a.thumbnail_key;
  }

  get_avatar-ready :
      (get_avatar (api mem_storage json injected max_upload) path_value w).0
      ≡ record { status = 200; body = avatar_response ready_view }
  unfolding get_avatar Mem.get_avatar write_json to_response new_handler response_of
  get_avatar-ready = ground (arith, named, stored, (eq_iff a.status status_ready).1 ready)

accepted-named :
    (limit : ℕ) (r : UploadRequest) (user_id filename : String) (content : Bytes)
    → upload_checks limit r ≡ accepted user_id filename content
    → (trim_space r.user_id == "") ≡ false
unfolding upload_checks
accepted-named limit r user_id filename content e = elim (Bool-cases (trim_space r.user_id == "")) [
  | inr named ↦ named
  | inl blank ↦ absurd (cc (rw (blank, upload_checks) at e))
]

module _ (c : Codec) (json : Json) (injected : Table) (max_upload : ℤ) (message_id : String)
    (r : UploadRequest) (w : World MemStorage) where
  abbrev pub user : String
  user = trim_space r.user_id

  abbrev pub uploaded : World MemStorage
  uploaded = (uploading json injected max_upload message_id r w).1

  -- The delivery of the upload's message.
  abbrev pub deliver : World MemStorage → World MemStorage
  deliver = handle_delivery (consumer mem_storage json c) (message json injected user message_id)

  -- The avatar that the upload comes to, when `p` is the processed form of its file.
  abbrev pub ready_avatar : ProcessedImage → Avatar
  ready_avatar p =
      made_ready (original_key_of user) (thumb_key_of user) p.content_type p.size_bytes p.width
        p.height w.db.now
        (with_status status_processing "" w.db.now
          (stamped w.db.now (pending_avatar user message_id)))

  -- Over the storage in memory, an object store that keeps its files, and a broker that takes every
  -- message: an upload that the checks accept, under a fresh message id that is not empty and with a
  -- message that survives its JSON encoding, is answered 202 and its
  -- message is published last; when that is delivered and Process accepts the file, GetAvatar of
  -- the same path answers 200 with the ready avatar of the processed image and the URLs of the two
  -- PNGs. A second delivery of the message changes nothing but the count of acknowledgements.
  pub upload-deliver-get :
      (filename : String) (content : Bytes) (p : ProcessedImage)
      → upload_checks (api mem_storage json injected max_upload).max_upload r
        ≡ accepted user filename content
      → json.unmarshal (json.marshal (process_message user message_id))
        ≡ some (process_message user message_id)
      → (message_id == "") ≡ false
      → lookup message_id w.db.processed ≡ none
      → process c content ≡ ok p
      → ((uploading json injected max_upload message_id r w).0.status ≡ 202)
        × (latest uploaded ≡ some (message json injected user message_id))
        × ((get_avatar (api mem_storage json injected max_upload) r.user_id (deliver uploaded)).0
            ≡ record {
              status = 200;
              body = avatar_response (record (response_of (ready_avatar p)) {
                original_url = sign (original_key_of user);
                thumbnail_url = sign (thumb_key_of user);
              });
            })
        × (deliver (deliver uploaded)
            ≡ record (deliver uploaded) { acked = suc (deliver uploaded).acked })
  unfolding made_ready
  upload-deliver-get filename content p passed read named fresh good =
      let (status, avatar, staged, sent, seen, now, _) =
        uploading-stored json injected max_upload message_id r w user filename content passed in
      let nonblank =
        accepted-named (api mem_storage json injected max_upload).max_upload r user filename content
          passed in
      let msg = process_message user message_id in
      let d = message json injected user message_id in
      let (ready, known, _, _) =
        delivered-ready c json d msg uploaded (stamped w.db.now (pending_avatar user message_id))
          content p read named (ap (lookup message_id) seen ∙ fresh) avatar staged good in
      let stored : lookup user (deliver uploaded).db.avatars ≡ some (ready_avatar p) =
        ready
        ∙ ap
            (λ (t : ℕ). some (
              made_ready (original_key_of user) (thumb_key_of user) p.content_type p.size_bytes
                p.width p.height t
                (with_status status_processing "" t
                  (stamped w.db.now (pending_avatar user message_id)))))
            now in
      (
        ap (λ (resp : Response). resp.status) status,
        sent,
        get_avatar-ready json injected max_upload (deliver uploaded) r.user_id (ready_avatar p)
            nonblank stored refl,
        handle_delivery_known c json d msg (deliver uploaded) (deliver uploaded).db.now read named
            known,
      )
