-- ===== src/System/Redelivery.antt =====
-- A message that is handled twice, as when it could not be marked as processed, over the storage in
-- memory.
use avatars.Prelude.{
  ◌≡◌, ◌==◌, false, none, some, arith, lookup, insert, lookup-insert, lookup-delete, eq_refl, refl,
  Error, other, message, ok,
}
use avatars.Models.{Avatar, status_processing, status_failed}
use avatars.Storage.Mem
use avatars.Storage.Mem.{MemStorage, mem_storage, with_status, made_ready}
use avatars.Handler.{Bytes}
use avatars.Processor.{Codec, ProcessedImage, process}
use avatars.Queue.{AvatarProcessMessage}
use avatars.Worker.{original_key_of, thumb_key_of, handle}
use avatars.System.{World, service}
use avatars.System.Working.{handle-made_ready}

abbrev pub handled : Codec → AvatarProcessMessage → World MemStorage → Error × World MemStorage
handled c msg w = handle c (service mem_storage) msg w

-- The avatar after an attempt that failed because the staged file is not there.
abbrev pub lost : World MemStorage → Avatar → Avatar
lost w a =
    with_status status_failed "no such key" w.db.now (with_status status_processing "" w.db.now a)

handle-lost :
    (c : Codec) (msg : AvatarProcessMessage) (w : World MemStorage) (a : Avatar)
    → lookup msg.user_id w.db.avatars ≡ some a
    → lookup msg.staging_key w.files ≡ none
    → ((handled c msg w).0 ≡ some (other "no such key"))
      × (lookup msg.user_id (handled c msg w).1.db.avatars ≡ some (lost w a))
unfolding handle Mem.update_avatar_status message
handle-lost c msg w a stored gone = ground (
  arith,
  stored,
  gone,
  lookup-insert msg.user_id msg.user_id (with_status status_processing "" w.db.now a) w.db.avatars,
  lookup-insert msg.user_id msg.user_id (lost w a)
      (insert msg.user_id (with_status status_processing "" w.db.now a) w.db.avatars),
  eq_refl msg.user_id,
)

module _ (c : Codec) (msg : AvatarProcessMessage) (w : World MemStorage) (a : Avatar)
    (content : Bytes) (p : ProcessedImage) (stored : lookup msg.user_id w.db.avatars ≡ some a)
    (staged : lookup msg.staging_key w.files ≡ some content) (good : process c content ≡ ok p)
    (named : (msg.staging_key == "") ≡ false) where
  handle-unstaged : lookup msg.staging_key (handled c msg w).1.files ≡ none
  unfolding handle Mem.update_avatar_status Mem.mark_avatar_ready
  handle-unstaged =
      let files =
        insert (thumb_key_of msg.user_id) p.thumbnail_png
          (insert (original_key_of msg.user_id) p.original_png w.files) in
      ground (
        arith,
        stored,
        staged,
        good,
        named,
        lookup-insert msg.user_id msg.user_id (with_status status_processing "" w.db.now a)
            w.db.avatars,
        eq_refl msg.user_id,
        lookup-delete msg.staging_key msg.staging_key files,
        eq_refl msg.staging_key,
      )

  -- The avatar that the first attempt makes.
  abbrev pub finished : Avatar
  finished =
      made_ready (original_key_of msg.user_id) (thumb_key_of msg.user_id) p.content_type
        p.size_bytes p.width p.height w.db.now (with_status status_processing "" w.db.now a)

  -- Over the storage in memory: when the message's user has an avatar and the staged file, under a key
  -- that is not empty, is there and is accepted by Process, Handle returns nil and makes the avatar
  -- ready; when the same message is then handled a second time, Handle returns the error that the
  -- staged file is not there, and the ready avatar has the status "failed".
  pub handle-twice :
      let w1 = (handled c msg w).1 in
      ((handled c msg w).0 ≡ none)
      × (lookup msg.user_id w1.db.avatars ≡ some finished)
      × ((handled c msg w1).0 ≡ some (other "no such key"))
      × (lookup msg.user_id (handled c msg w1).1.db.avatars ≡ some (lost w1 finished))
      × ((lost w1 finished).status ≡ status_failed)
  unfolding with_status
  handle-twice =
      let w1 = (handled c msg w).1 in
      let (done, ready, _, _, _) = handle-made_ready c msg w a content p stored staged good in
      let (failed, row) = handle-lost c msg w1 finished ready handle-unstaged in
      (done, ready, failed, row, refl)
