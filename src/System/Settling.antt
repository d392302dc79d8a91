-- ===== src/System/Settling.antt =====
-- The worker's Handle over PostgreSQL and any object store: what becomes of the row.
use avatars.Prelude.{
  Option, ◌≡◌, ◌⊎◌, inl, inr, none, some, [], arith, lookup, insert, lookup-insert, eq_refl, ok,
  err, Error, Failure, message, Option-cases, Result-cases,
}
use avatars.Models.{status_processing, status_failed}
use avatars.Storage.Postgres
use avatars.Storage.Postgres.{Postgres, Row, stored_now, postgres_storage}
use avatars.Handler.{Bytes}
use avatars.Processor.{Codec, ProcessedImage, process}
use avatars.Queue.{AvatarProcessMessage}
use avatars.Worker.{ObjectStore, original_key_of, thumb_key_of, handle}
use avatars.System.OverPostgres.{over_postgres}
use avatars.System.Rows.Keeping.{with_status, completed}

module _ {X : Type 0} (c : Codec) (objects : ObjectStore X) (msg : AvatarProcessMessage)
    (p : Postgres) (x : X) where
  abbrev pub after : Error × (Postgres × X)
  after = handle c (over_postgres objects) msg (p, x)

  abbrev row_after : Option Row
  row_after = lookup msg.user_id after.1.0.avatars

  -- The row while the message is handled.
  abbrev pub at_work : Row → Row
  at_work r = with_status (stored_now p) status_processing "" r

  abbrev pub made_of : ProcessedImage → Row → Row
  made_of image r =
      completed (stored_now p) (original_key_of msg.user_id) (thumb_key_of msg.user_id)
        image.content_type image.size_bytes image.width image.height (at_work r)

  abbrev pub IsReady : Row → Type 0
  IsReady r =
      (content : Bytes) × (image : ProcessedImage) × (after.0 ≡ none)
      × (process c content ≡ ok image)
      × (row_after ≡ some (made_of image r))

  abbrev failed_row : Row → Failure → Row
  failed_row r e = with_status (stored_now p) status_failed (message e) (at_work r)

  abbrev pub FailedWith : Row → Failure → Type 0
  FailedWith r e = (after.0 ≡ some e) × (row_after ≡ some (failed_row r e))

  abbrev pub IsFailed : Row → Type 0
  IsFailed r = (e : Failure) × FailedWith r e

  module _ (r : Row) (sound : p.faults ≡ []) (stored : lookup msg.user_id p.avatars ≡ some r) where
    rewritten :
        (new : Row)
        → lookup msg.user_id (insert msg.user_id new (insert msg.user_id (at_work r) p.avatars))
          ≡ some new
    rewritten new = ground (
      arith,
      eq_refl msg.user_id,
      lookup-insert msg.user_id msg.user_id new (insert msg.user_id (at_work r) p.avatars),
    )

    begun : lookup msg.user_id (insert msg.user_id (at_work r) p.avatars) ≡ some (at_work r)
    begun =
        ground
          (arith, eq_refl msg.user_id, lookup-insert msg.user_id msg.user_id (at_work r) p.avatars)

    module _ (content : Bytes) (image : ProcessedImage)
        (read : (objects.download msg.staging_key x).0 ≡ ok content)
        (good : process c content ≡ ok image) where
      abbrev original : Error × X
      original =
          objects.upload (original_key_of msg.user_id) image.original_png "image/png"
            (objects.download msg.staging_key x).1

      abbrev thumb : Error × X
      thumb = objects.upload (thumb_key_of msg.user_id) image.thumbnail_png "image/png" original.1

      images_stored : original.0 ≡ none → thumb.0 ≡ none → IsReady r
      unfolding handle Postgres.update_avatar_status Postgres.mark_avatar_ready
      images_stored o t = (
        content,
        image,
        ground (arith, sound, stored, begun),
        good,
        ground (arith, sound, stored, begun, rewritten (made_of image r)),
      )

      original_lost : (e : Failure) → original.0 ≡ some e → IsFailed r
      unfolding handle Postgres.update_avatar_status
      original_lost e o = (e, ground (arith, sound, stored, begun, rewritten (failed_row r e)))

      thumb_lost : (e : Failure) → original.0 ≡ none → thumb.0 ≡ some e → IsFailed r
      unfolding handle Postgres.update_avatar_status
      thumb_lost e o t = (e, ground (arith, sound, stored, begun, rewritten (failed_row r e)))

      images_settle : IsReady r ⊎ IsFailed r
      images_settle = elim (Option-cases original.0) [
        | inr (e, o) ↦ inr (original_lost e o)
        | inl o ↦ elim (Option-cases thumb.0) [
          | inr (e, t) ↦ inr (thumb_lost e o t)
          | inl t ↦ inl (images_stored o t)
        ]
      ]

    staged_lost : (e : Failure) → (objects.download msg.staging_key x).0 ≡ err e → IsFailed r
    unfolding handle Postgres.update_avatar_status
    staged_lost e lost = (e, ground (arith, sound, stored, begun, rewritten (failed_row r e)))

    refused :
        (content : Bytes) (e : Failure)
        → (objects.download msg.staging_key x).0 ≡ ok content
        → process c content ≡ err e
        → IsFailed r
    unfolding handle Postgres.update_avatar_status
    refused content e read bad =
        (e, ground (arith, sound, stored, begun, rewritten (failed_row r e)))

    -- Over PostgreSQL without faults and any object store, whatever that answers: when the message's
    -- user has a row, Handle ends with it settled. Either Handle returns nil and the row is ready with
    -- the parts of an image that Process made, or it returns an error and the row has the status failed
    -- and the error's text; it is never left in status processing.
    pub handle-settles : IsReady r ⊎ IsFailed r
    handle-settles = elim (Result-cases (objects.download msg.staging_key x).0) [
      | inr (e, lost) ↦ inr (staged_lost e lost)
      | inl (content, read) ↦ elim (Result-cases (process c content)) [
        | inr (e, bad) ↦ inr (refused content e read bad)
        | inl (image, good) ↦ images_settle content image read good
      ]
    ]
