-- ===== src/System/Working.antt =====
-- The worker's Handle over the storage in memory, where the avatar, the staged file and its processed
-- form are at hand.
use avatars.Prelude.{◌≡◌, none, some, arith, lookup, insert, lookup-insert, eq_refl, Error, ok}
use avatars.Models.{Avatar, status_processing}
use avatars.Storage.Mem
use avatars.Storage.Mem.{MemStorage, mem_storage, with_status, made_ready}
use avatars.Handler.{Bytes}
use avatars.Processor.{Codec, ProcessedImage, process}
use avatars.Queue.{AvatarProcessMessage}
use avatars.Worker.{original_key_of, thumb_key_of, handle}
use avatars.System.{World, service}

module _ (c : Codec) (msg : AvatarProcessMessage) (w : World MemStorage) (a : Avatar)
    (content : Bytes) (p : ProcessedImage) (stored : lookup msg.user_id w.db.avatars ≡ some a)
    (staged : lookup msg.staging_key w.files ≡ some content) (good : process c content ≡ ok p) where
  abbrev pub after : Error × World MemStorage
  after = handle c (service mem_storage) msg w

  -- Over the storage in memory: when the message's user has an avatar, whatever message id that has,
  -- and the staged file is there and is accepted by Process, Handle returns nil and the user's
  -- avatar is ready with the processed image's parts, its staging key and error text emptied; it
  -- keeps its other fields, the message id among them. The processed messages, what was sent and
  -- the count of acknowledgements stay as they are.
  pub handle-made_ready :
      (after.0 ≡ none)
      × (lookup msg.user_id after.1.db.avatars
          ≡ some (
              made_ready
                (original_key_of msg.user_id)
                (thumb_key_of msg.user_id)
                p.content_type
                p.size_bytes
                p.width
                p.height
                w.db.now
                (with_status status_processing "" w.db.now a)))
      × (after.1.db.processed ≡ w.db.processed)
      × (after.1.sent ≡ w.sent)
      × (after.1.acked ≡ w.acked)
  unfolding handle Mem.update_avatar_status Mem.mark_avatar_ready
  handle-made_ready = ground (
    arith,
    stored,
    staged,
    good,
    lookup-insert msg.user_id msg.user_id (with_status status_processing "" w.db.now a)
        w.db.avatars,
    lookup-insert msg.user_id msg.user_id
        (made_ready (original_key_of msg.user_id) (thumb_key_of msg.user_id) p.content_type
          p.size_bytes p.width p.height w.db.now (with_status status_processing "" w.db.now a))
        (insert msg.user_id (with_status status_processing "" w.db.now a) w.db.avatars),
    eq_refl msg.user_id,
  )
