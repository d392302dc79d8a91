-- ===== src/Worker.antt =====
-- internal/worker/service.go: the worker's handling of one message. Spans and logs are left out.
use Prim.Native.String as Str
use avatars.Prelude.{
  String, none, some, List, [], ◌∷◌, Error, Failure, message, wrap, Result, ok, err,
}
use avatars.Models.{status_processing, status_failed}
use avatars.Queue.{AvatarProcessMessage}
use avatars.Storage.{Storage}
use avatars.Handler.{Bytes}
use avatars.Processor.{Codec, ProcessedImage, process}

pub record ObjectStore (W : Type 0) : Type 0 where
  pub upload : String → Bytes → String → W → Error × W
  pub download : String → W → Result Bytes × W
  pub delete : List String → W → Error × W

pub record Service (W : Type 0) : Type 0 where
  pub store : Storage W
  pub objects : ObjectStore W

-- fmt.Sprintf("avatars/%s/original.png", msg.UserID), and the thumbnail's key
abbrev pub original_key_of : String → String
original_key_of user_id = Str.◌++◌ "avatars/" (Str.◌++◌ user_id "/original.png")

abbrev pub thumb_key_of : String → String
thumb_key_of user_id = Str.◌++◌ "avatars/" (Str.◌++◌ user_id "/thumb.png")

module _ {W : Type 0} (c : Codec) (s : Service W) (msg : AvatarProcessMessage) where
  -- `_ = s.store.UpdateAvatarStatus(…, StatusFailed, err.Error()); return err`
  give_up : Failure → W → Error × W
  give_up e w =
      let (_, w1) = s.store.update_avatar_status msg.user_id status_failed (message e) w in
      (some e, w1)

  made_ready : Error → W → Error × W
  made_ready (some e) w = (some e, w)
  made_ready none w = let (_, w1) = s.objects.delete (msg.staging_key ∷ []) w in (none, w1)

  thumb_uploaded : ProcessedImage → Error → W → Error × W
  thumb_uploaded p (some e) w = give_up e w
  thumb_uploaded p none w =
      let (e, w1) =
        s.store.mark_avatar_ready msg.user_id (original_key_of msg.user_id)
          (thumb_key_of msg.user_id) p.content_type p.size_bytes p.width p.height w in
      made_ready e w1

  original_uploaded : ProcessedImage → Error → W → Error × W
  original_uploaded p (some e) w = give_up e w
  original_uploaded p none w =
      let (e, w1) = s.objects.upload (thumb_key_of msg.user_id) p.thumbnail_png "image/png" w in
      thumb_uploaded p e w1

  processed : Result ProcessedImage → W → Error × W
  processed (err e) w = give_up e w
  processed (ok p) w =
      let (e, w1) = s.objects.upload (original_key_of msg.user_id) p.original_png "image/png" w in
      original_uploaded p e w1

  downloaded : Result Bytes → W → Error × W
  downloaded (err e) w = give_up e w
  downloaded (ok content) w = processed (process c content) w

  status_set : Error → W → Error × W
  status_set (some e) w = (some (wrap "update status" e), w)
  status_set none w =
      let (content, w1) = s.objects.download msg.staging_key w in downloaded content w1

  -- Handle; the delivery that it is also given is not read.
  unfoldable pub handle : W → Error × W
  unfolding give_up made_ready thumb_uploaded original_uploaded processed downloaded status_set
  handle w =
      let (e, w1) = s.store.update_avatar_status msg.user_id status_processing "" w in
      status_set e w1
