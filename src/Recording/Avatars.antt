-- ===== src/Recording/Avatars.antt =====
-- GetAvatar and DeleteAvatar of internal/handler/handler.go in any environment.
use avatars.Prelude.{
  String, Bool, true, false, ◌==◌, ◌≡◌, ◌≢◌, ◌↔◌, none, some, [], ◌∷◌, arith, ok, err, refl, ap,
  ◌∙◌, Error, Result, Option, trim_space, eq_iff, ◌⊎◌, inl, inr, Result-cases, Option-cases,
  Bool-cases,
}
use avatars.Models.{Avatar, status_ready}
use avatars.Http.{Response, AvatarResponse, avatar_response, write_json}
use avatars.Handler.{Handler}
use avatars.Handler.Avatars.{get_avatar, delete_avatar, response_of}
use avatars.Recording.{Acts, got, removed, deleted, presigned, recorded_handler}

unfoldable pub metadata_asked : Acts → Bool
metadata_asked [] = false
metadata_asked (removed _ _ ∷ _) = true
metadata_asked (_ ∷ acts) = metadata_asked acts

module _ {W : Type 0} (h : Handler W) (path_value : String) (w : W) where
  abbrev pub deletion : Response
  deletion = (delete_avatar (recorded_handler h) path_value (w, [])).0

  abbrev pub deletion_acts : Acts
  deletion_acts = (delete_avatar (recorded_handler h) path_value (w, [])).1.1

  -- The calls of a deletion that comes to the metadata, whose deletion answers `e`: the avatar that the
  -- storage returned for the trimmed user id, its three files, and the metadata of that user.
  abbrev pub IsDeletion : Avatar → Error → Type 0
  IsDeletion a e =
      deletion_acts
      ≡ removed (trim_space path_value) e
        ∷ deleted (a.staging_key ∷ a.original_key ∷ a.thumbnail_key ∷ []) none
        ∷ got (trim_space path_value) (ok (some a))
        ∷ []

  abbrev uid : String
  uid = trim_space path_value

  -- The state in which the metadata are deleted.
  abbrev emptied : Avatar → W
  emptied a =
      (h.objects.delete (a.staging_key ∷ a.original_key ∷ a.thumbnail_key ∷ [])
        (h.store.get_avatar uid w).1).1

  asked-IsDeletion :
      (found : Result (Option Avatar))
      → (h.store.get_avatar uid w).0 ≡ found
      → metadata_asked deletion_acts ≡ true
      → (a : Avatar) × IsDeletion a (h.store.delete_avatar uid (emptied a)).0
  unfolding delete_avatar metadata_asked
  asked-IsDeletion (err e) read asked = absurd (ground arith)
  asked-IsDeletion (ok none) read asked = absurd (ground arith)
  asked-IsDeletion (ok (some a)) read asked = (a, ground arith)

  answered_204 : (a : Avatar) (e : Error) → IsDeletion a e → (deletion.status ≡ 204) ↔ (e ≡ none)
  unfolding delete_avatar write_json
  answered_204 a e trace = ground arith

  IsDeletion-done : (a : Avatar) (e : Error) → e ≡ none → IsDeletion a e → IsDeletion a none
  IsDeletion-done a e fine trace =
      let keys = a.staging_key ∷ a.original_key ∷ a.thumbnail_key ∷ [] in
      trace ∙ ap (λ x. removed uid x ∷ deleted keys none ∷ got uid (ok (some a)) ∷ []) fine

  -- DeleteAvatar answers 204 exactly when its calls are these: it is given an avatar for the trimmed
  -- user id, deletes that avatar's staged file, original and thumbnail, and deletes the metadata of the
  -- user id, all without an error. It asks for the deletion of metadata only after such calls.
  pub delete_avatar-204 :
      ((deletion.status ≡ 204) ↔ ((a : Avatar) × IsDeletion a none))
      × (metadata_asked deletion_acts ≡ true → (a : Avatar) × (e : Error) × IsDeletion a e)
  unfolding delete_avatar metadata_asked write_json
  delete_avatar-204 = (
    (
      λ done.
          let asked : metadata_asked deletion_acts ≡ true = ground arith in
          let (a, trace) = asked-IsDeletion (h.store.get_avatar uid w).0 refl asked in
          let fine = (answered_204 a (h.store.delete_avatar uid (emptied a)).0 trace).0 done in
          (a, IsDeletion-done a (h.store.delete_avatar uid (emptied a)).0 fine trace),
      λ (a, trace). (answered_204 a none trace).1 refl,
    ),
    λ asked.
        let (a, trace) = asked-IsDeletion (h.store.get_avatar uid w).0 refl asked in
        (a, (h.store.delete_avatar uid (emptied a)).0, trace),
  )

  abbrev pub getting : Response
  getting = (get_avatar (recorded_handler h) path_value (w, [])).0

  abbrev pub getting_acts : Acts
  getting_acts = (get_avatar (recorded_handler h) path_value (w, [])).1.1

  -- The view of a stored avatar that is not ready: its fields, and no URL is signed.
  abbrev pub IsPlainView : Avatar → AvatarResponse → Type 0
  IsPlainView a r =
      (a.status ≢ status_ready)
      × (r ≡ response_of a)
      × (getting_acts ≡ got (trim_space path_value) (ok (some a)) ∷ [])

  -- The view of a ready avatar: its fields, and the URLs signed for its two keys.
  abbrev pub IsReadyView : Avatar → AvatarResponse → Type 0
  IsReadyView a r =
      (a.status ≡ status_ready)
      × (r ≡ record (response_of a) {
        original_url = r.original_url;
        thumbnail_url = r.thumbnail_url;
      })
      × (getting_acts
          ≡ presigned a.thumbnail_key h.url_expiry (ok r.thumbnail_url)
            ∷ presigned a.original_key h.url_expiry (ok r.original_url)
            ∷ got (trim_space path_value) (ok (some a))
            ∷ [])

  -- When GetAvatar answers 200 with `r`, then `r` is the view of the avatar that the storage returned
  -- for the trimmed user id: with signed URLs if that avatar is ready, and without any if it is
  -- not. No other call is made.
  pub get_avatar-200 :
      (r : AvatarResponse)
      → getting ≡ record { status = 200; body = avatar_response r }
      → (a : Avatar) × (IsPlainView a r ⊎ IsReadyView a r)
  unfolding get_avatar write_json
  get_avatar-200 r e = elim (Result-cases (h.store.get_avatar (trim_space path_value) w).0) [
    | inr (x, lost) ↦ absurd (ground arith)
    | inl (found, read) ↦ elim (Option-cases found) [
      | inl missing ↦ absurd (ground arith)
      | inr (a, there) ↦ (
        a,
        elim (Bool-cases (a.status == status_ready)) [
          | inl ready ↦ inr (ground (arith, eq_iff a.status status_ready))
          | inr other ↦ inl (ground (arith, eq_iff a.status status_ready))
        ],
      )
    ]
  ]
