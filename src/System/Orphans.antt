-- ===== src/System/Orphans.antt =====
-- A message whose user has been deleted, over PostgreSQL.
use avatars.Prelude.{
  ◌≡◌, ◌≢◌, none, some, [], arith, lookup, insert, lookup-insert, lookup-delete, eq_refl, eq_iff,
  ok, Error,
}
use avatars.Storage.Postgres
use avatars.Storage.Postgres.{Postgres, postgres_storage}
use avatars.Handler.{Bytes}
use avatars.Processor.{Codec, ProcessedImage, process}
use avatars.Queue.{AvatarProcessMessage}
use avatars.Worker.{original_key_of, thumb_key_of, handle}
use avatars.System.{World, service}

module _ (c : Codec) (msg : AvatarProcessMessage) (w : World Postgres) where
  abbrev pub handled : Error × World Postgres
  handled = handle c (service postgres_storage) msg w

  -- Over PostgreSQL without faults: when the message's user has no row, as after DeleteAvatar, and its
  -- staged file is still there, is named apart from the two PNGs and is accepted by Process, Handle
  -- returns nil and leaves the two PNGs in the object store, while the user still has no row.
  pub handle-orphans :
      (content : Bytes) (p : ProcessedImage)
      → w.db.faults ≡ []
      → lookup msg.user_id w.db.avatars ≡ none
      → lookup msg.staging_key w.files ≡ some content
      → msg.staging_key ≢ original_key_of msg.user_id
      → msg.staging_key ≢ thumb_key_of msg.user_id
      → original_key_of msg.user_id ≢ thumb_key_of msg.user_id
      → process c content ≡ ok p
      → (handled.0 ≡ none)
        × (lookup (original_key_of msg.user_id) handled.1.files ≡ some p.original_png)
        × (lookup (thumb_key_of msg.user_id) handled.1.files ≡ some p.thumbnail_png)
        × (handled.1.db ≡ w.db)
  unfolding handle Postgres.update_avatar_status Postgres.mark_avatar_ready
  handle-orphans content p no_faults no_row staged apart apart' distinct good =
      let o = original_key_of msg.user_id in
      let t = thumb_key_of msg.user_id in
      let files1 = insert o p.original_png w.files in
      let files2 = insert t p.thumbnail_png files1 in
      ground (
        arith,
        no_faults,
        no_row,
        staged,
        good,
        lookup-insert o o p.original_png w.files,
        lookup-insert t o p.thumbnail_png files1,
        lookup-insert t t p.thumbnail_png files1,
        lookup-delete msg.staging_key o files2,
        lookup-delete msg.staging_key t files2,
        eq_refl o,
        eq_refl t,
        eq_iff msg.staging_key o,
        eq_iff msg.staging_key t,
        eq_iff t o,
      )
