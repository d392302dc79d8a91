-- ===== src/System/Rows/Calls.antt =====
-- The storage calls of the handlers of internal/handler/handler.go and of the worker's Handle in any
-- environment, against those that keep the rows good.
use avatars.Prelude.{
  ℕ, String, Bool, true, ◌&&◌, eq_refl, ◌≡◌, refl, none, [], ◌∷◌, arith, Result-cases, message,
  Option-cases, ◌⊎◌, inl, inr, ok,
}
use avatars.Models.{status_processing, status_failed}
use avatars.Queue.{AvatarProcessMessage}
use avatars.Handler.{Bytes, Handler}
use avatars.Handler.Files.{IsImageType}
use avatars.Handler.Upload.{
  Checked, accepted, rejected, UploadRequest, pending_avatar, staging_key_of, upload_checks,
  upload_avatar,
}
use avatars.Handler.Avatars.{get_avatar, delete_avatar, to_response}
use avatars.Processor.{Codec, ProcessedImage, process}
use avatars.Processor.Sizes.{ScalesExactly}
use avatars.Processor.Outcome.{process_bounds}
use avatars.Worker.{Service, original_key_of, thumb_key_of, handle}
use avatars.Storage.Ops.{upsert, set_status, mark_ready}
use avatars.Recording as Recording
use avatars.Recording.{Act, Acts, upserted, made_ready, recorded_handler, recorded_service}
use avatars.System.Rows.{is_made, is_image}

-- A recorded call that the program makes; only those of the storage are looked at.
abbrev pub call_made : Act → Bool
call_made (upserted a _) = is_made (upsert a)
call_made (Recording.set_status user_id status msg _) = is_made (set_status user_id status msg)
call_made (made_ready user_id original thumb content_type size width height _) =
    is_made (mark_ready user_id original thumb content_type size width height)
call_made _ = true

unfoldable pub all_made : Acts → Bool
all_made [] = true
all_made (act ∷ acts) = call_made act && all_made acts

pending_made :
    (user_id message_id : String) → is_made (upsert (pending_avatar user_id message_id)) ≡ true
unfolding is_made
pending_made user_id message_id = rw (eq_refl (staging_key_of user_id message_id)) refl

failed_made : (user_id msg : String) → is_made (set_status user_id status_failed msg) ≡ true
unfolding is_made
failed_made user_id msg = refl

processing_made : (user_id msg : String) → is_made (set_status user_id status_processing msg) ≡ true
unfolding is_made
processing_made user_id msg = refl

pub Checked-cases :
    (k : Checked)
    → ((status : ℕ) × (reason : String) × (k ≡ rejected status reason))
      ⊎ ((user_id : String) × (filename : String) × (content : Bytes) × (k
            ≡ accepted user_id filename content))
Checked-cases (rejected status reason) = inl (status, reason, refl)
Checked-cases (accepted user_id filename content) = inr (user_id, filename, content, refl)

module _ {W : Type 0} (h : Handler W) (w : W) where
  -- The calls of the handlers.
  abbrev pub upload_calls : String → UploadRequest → Acts
  upload_calls message_id r = (upload_avatar (recorded_handler h) message_id r (w, [])).1.1

  abbrev pub delete_calls : String → Acts
  delete_calls user_id = (delete_avatar (recorded_handler h) user_id (w, [])).1.1

  abbrev pub get_calls : String → Acts
  get_calls user_id = (get_avatar (recorded_handler h) user_id (w, [])).1.1

  upload_avatar-made :
      (message_id : String) (r : UploadRequest) → all_made (upload_calls message_id r) ≡ true
  unfolding upload_avatar all_made
  upload_avatar-made message_id r = elim (Checked-cases (upload_checks h.max_upload r)) [
    | inl (status, reason, e) ↦ ground arith
    | inr (user_id, filename, content, e) ↦
        ground (
          arith,
          pending_made user_id message_id,
          failed_made user_id "failed to enqueue processing",
        )
  ]

  delete_avatar-made : (user_id : String) → all_made (delete_calls user_id) ≡ true
  unfolding delete_avatar all_made
  delete_avatar-made user_id = ground arith

  get_avatar-made : (user_id : String) → all_made (get_calls user_id) ≡ true
  unfolding get_avatar to_response all_made
  get_avatar-made user_id = ground arith

abbrev pub handle_calls : {W : Type 0} → Codec → Service W → AvatarProcessMessage → W → Acts
handle_calls c s msg w = (handle c (recorded_service s) msg (w, [])).1.1

image_lem : (t : String) → IsImageType t → is_image t ≡ true
image_lem t (inl jpeg) = rw jpeg refl
image_lem t (inr (inl png)) = rw png refl
image_lem t (inr (inr webp)) = rw webp refl

module _ (c : Codec) (exact : ScalesExactly c) where
  ready_made :
      (user_id : String) (content : Bytes) (p : ProcessedImage)
      → process c content ≡ ok p
      → is_made (
          mark_ready user_id
            (original_key_of user_id)
            (thumb_key_of user_id)
            p.content_type
            p.size_bytes
            p.width
            p.height)
        ≡ true
  unfolding is_made
  ready_made user_id content p e =
      let (wide, narrow, high, low, image) = process_bounds c content p exact e in
      rw
        (
          eq_refl (original_key_of user_id),
          eq_refl (thumb_key_of user_id),
          image_lem p.content_type image,
        )
        (ground arith)

  module _ {W : Type 0} (s : Service W) (msg : AvatarProcessMessage) (w : W) where
    stored_made :
        (content : Bytes) (p : ProcessedImage)
        → (s.store.update_avatar_status msg.user_id status_processing "" w).0 ≡ none
        → (s.objects.download msg.staging_key
            (s.store.update_avatar_status msg.user_id status_processing "" w).1).0
          ≡ ok content
        → process c content ≡ ok p
        → all_made (handle_calls c s msg w) ≡ true
    unfolding handle all_made
    stored_made content p set_ok read_ok good =
        let started = processing_made msg.user_id "" in
        let read =
          s.objects.download msg.staging_key
            (s.store.update_avatar_status msg.user_id status_processing "" w).1 in
        let first =
          s.objects.upload (original_key_of msg.user_id) p.original_png "image/png" read.1 in
        elim (Option-cases first.0) [
          | inr (x, refused) ↦ ground (arith, started, failed_made msg.user_id (message x))
          | inl original ↦
              elim (Option-cases
                (s.objects.upload (thumb_key_of msg.user_id) p.thumbnail_png "image/png"
                  first.1).0) [
                    | inr (x, refused) ↦
                        ground (arith, started, failed_made msg.user_id (message x))
                    | inl thumb ↦ ground (arith, started, ready_made msg.user_id content p good)
                  ]
        ]

    handle-made : all_made (handle_calls c s msg w) ≡ true
    unfolding handle all_made
    handle-made =
        let started = processing_made msg.user_id "" in
        let set = s.store.update_avatar_status msg.user_id status_processing "" w in
        let read = s.objects.download msg.staging_key set.1 in
        elim (Option-cases set.0) [
          | inr (x, refused) ↦ ground (arith, started)
          | inl set_ok ↦ elim (Result-cases read.0) [
            | inr (x, lost) ↦ ground (arith, started, failed_made msg.user_id (message x))
            | inl (content, read_ok) ↦ elim (Result-cases (process c content)) [
              | inr (x, bad) ↦ ground (arith, started, failed_made msg.user_id (message x))
              | inl (p, good) ↦ stored_made content p set_ok read_ok good
            ]
          ]
        ]

-- The calls of UploadAvatar, GetAvatar, DeleteAvatar and Handle in any environment, whatever it answers,
-- are among those that keep the rows good; Handle's codec scales to the size that it is asked for.
pub program-made :
    {W : Type 0} (h : Handler W) (c : Codec) (s : Service W) (message_id user_id : String)
    (r : UploadRequest) (msg : AvatarProcessMessage) (w : W)
    → ScalesExactly c
    → (all_made (upload_calls h w message_id r) ≡ true)
      × (all_made (get_calls h w user_id) ≡ true)
      × (all_made (delete_calls h w user_id) ≡ true)
      × (all_made (handle_calls c s msg w) ≡ true)
program-made h c s message_id user_id r msg w exact = (
  upload_avatar-made h w message_id r,
  get_avatar-made h w user_id,
  delete_avatar-made h w user_id,
  handle-made c exact s msg w,
)
