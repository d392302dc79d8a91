-- ===== src/Recording/Handling.antt =====
-- The worker's Handle of internal/worker/service.go in any environment.
use avatars.Prelude.{
  String, Bool, true, false, ◌&&◌, ◌||◌, ◌==◌, eq_refl, ◌≡◌, ◌↔◌, none, some, [], ◌∷◌, arith, ok,
  Error, Failure, message, Result-cases, Option-cases, inl, inr,
}
use avatars.Models.{status_processing, status_failed}
use avatars.Queue.{AvatarProcessMessage}
use avatars.Handler.{Bytes}
use avatars.Processor.{Codec, ProcessedImage, process}
use avatars.Worker.{Service, original_key_of, thumb_key_of, handle}
use avatars.Recording.{
  Acts, set_status, made_ready, uploaded, downloaded, deleted, recorded_service,
}

unfoldable pub was_made_ready : Acts → Bool
was_made_ready [] = false
was_made_ready (made_ready _ _ _ _ _ _ _ none ∷ _) = true
was_made_ready (_ ∷ acts) = was_made_ready acts

unfoldable pub was_deleted : Acts → Bool
was_deleted [] = false
was_deleted (deleted _ _ ∷ _) = true
was_deleted (_ ∷ acts) = was_deleted acts

-- The last call writes the status "failed" and the error's text for the user.
unfoldable pub reports_failure : String → Failure → Acts → Bool
reports_failure user_id e (set_status k status text _ ∷ _) =
    k == user_id && (status == status_failed && text == message e)
reports_failure user_id e _ = false

-- The only call is the write of the status "processing", which fails.
unfoldable pub never_started : Acts → Bool
never_started (set_status _ _ _ (some _) ∷ []) = true
never_started _ = false

-- The last call is the one that makes the avatar ready, which fails.
unfoldable pub ready_refused : Acts → Bool
ready_refused (made_ready _ _ _ _ _ _ _ (some _) ∷ _) = true
ready_refused _ = false

module _ {W : Type 0} (c : Codec) (s : Service W) (msg : AvatarProcessMessage) (w : W) where
  abbrev pub error_of : Error
  error_of = (handle c (recorded_service s) msg (w, [])).0

  abbrev pub acts_of : Acts
  acts_of = (handle c (recorded_service s) msg (w, [])).1.1

  -- The calls of a run that succeeds, the latest first, when the staged file holds `content`, `p` is
  -- its processed form and the last deletion answers `e`.
  abbrev pub success : Bytes → ProcessedImage → Error → Acts
  success content p e =
      deleted (msg.staging_key ∷ []) e
      ∷ made_ready msg.user_id (original_key_of msg.user_id) (thumb_key_of msg.user_id)
          p.content_type p.size_bytes p.width p.height none
      ∷ uploaded (thumb_key_of msg.user_id) p.thumbnail_png "image/png" none
      ∷ uploaded (original_key_of msg.user_id) p.original_png "image/png" none
      ∷ downloaded msg.staging_key (ok content)
      ∷ set_status msg.user_id status_processing "" none
      ∷ []

  -- Handle returns nil exactly when the avatar is made ready, and the staged file is deleted only
  -- then.
  pub handle-none_iff :
      ((error_of ≡ none) ↔ (was_made_ready acts_of ≡ true))
      × (was_deleted acts_of ≡ was_made_ready acts_of)
  unfolding handle was_made_ready was_deleted
  handle-none_iff = ground arith

  -- The error case of Handle, when the processed images are at hand.
  store_pngs_fails :
      (e : Failure) (content : Bytes) (p : ProcessedImage)
      → error_of ≡ some e
      → (s.store.update_avatar_status msg.user_id status_processing "" w).0 ≡ none
      → (s.objects.download msg.staging_key
          (s.store.update_avatar_status msg.user_id status_processing "" w).1).0
        ≡ ok content
      → process c content ≡ ok p
      → (reports_failure msg.user_id e acts_of || never_started acts_of || ready_refused acts_of)
        ≡ true
  unfolding handle reports_failure never_started ready_refused
  store_pngs_fails e content p h set read good =
      let w1 = (s.store.update_avatar_status msg.user_id status_processing "" w).1 in
      let w2 = (s.objects.download msg.staging_key w1).1 in
      let first = s.objects.upload (original_key_of msg.user_id) p.original_png "image/png" w2 in
      elim (Option-cases first.0) [
        | inr (x, refused) ↦ ground (arith, eq_refl msg.user_id, eq_refl (message e))
        | inl original ↦
            elim (Option-cases
              (s.objects.upload (thumb_key_of msg.user_id) p.thumbnail_png "image/png" first.1).0) [
                | inr (x, refused) ↦ ground (arith, eq_refl msg.user_id, eq_refl (message e))
                | inl thumb ↦ ground arith
              ]
      ]

  -- When Handle returns an error, then its last call asked for the status "failed" with the error's
  -- text, or the status "processing" could not be written and nothing else was called, or the last
  -- call was the one that should have made the avatar ready.
  pub handle-some :
      (e : Failure)
      → error_of ≡ some e
      → (reports_failure msg.user_id e acts_of || never_started acts_of || ready_refused acts_of)
        ≡ true
  unfolding handle reports_failure never_started ready_refused
  handle-some e h =
      let w1 = (s.store.update_avatar_status msg.user_id status_processing "" w).1 in
      elim (Option-cases (s.store.update_avatar_status msg.user_id status_processing "" w).0) [
        | inr (x, refused) ↦ ground arith
        | inl set ↦ elim (Result-cases (s.objects.download msg.staging_key w1).0) [
          | inr (x, lost) ↦ ground (arith, eq_refl msg.user_id, eq_refl (message e))
          | inl (content, read) ↦ elim (Result-cases (process c content)) [
            | inr (x, bad) ↦ ground (arith, eq_refl msg.user_id, eq_refl (message e))
            | inl (p, good) ↦ store_pngs_fails e content p h set read good
          ]
        ]
      ]

  -- When Handle returns nil, then for some content of the staged file, which Process accepts, the
  -- calls are those of `success`: the status, the download, the two PNGs, the metadata and the
  -- deletion of the staged file, each with the processed image's parts and the user's keys.
  pub handle-success :
      error_of ≡ none
      → (content : Bytes) × (p : ProcessedImage) × (e : Error) × (process c content ≡ ok p)
        × (acts_of ≡ success content p e)
  unfolding handle
  handle-success h =
      let w1 = (s.store.update_avatar_status msg.user_id status_processing "" w).1 in
      let w2 = (s.objects.download msg.staging_key w1).1 in
      elim (Result-cases (s.objects.download msg.staging_key w1).0) [
        | inr (x, lost) ↦ absurd (ground arith)
        | inl (content, read) ↦ elim (Result-cases (process c content)) [
          | inr (x, bad) ↦ absurd (ground arith)
          | inl (p, good) ↦
              let w3 =
                (s.objects.upload (original_key_of msg.user_id) p.original_png "image/png" w2).1 in
              let w4 =
                (s.objects.upload (thumb_key_of msg.user_id) p.thumbnail_png "image/png" w3).1 in
              let w5 =
                (s.store.mark_avatar_ready msg.user_id (original_key_of msg.user_id)
                  (thumb_key_of msg.user_id) p.content_type p.size_bytes p.width p.height w4).1 in
              (content, p, (s.objects.delete (msg.staging_key ∷ []) w5).0, good, ground arith)
        ]
      ]
