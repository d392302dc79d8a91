-- ===== src/Storage/Ops.antt =====
-- The calls of the interface `Storage` as values, so that a client is a list of calls.
use avatars.Prelude.{ℕ, String, Bool, Option, List, [], ◌∷◌, Error, Result}
use avatars.Models.{Avatar, ProcessingStatus}
use avatars.Storage.{Storage}

pub data Op : Type 0 where
  upsert : Avatar → Op
  get remove is_processed mark_processed : String → Op
  set_status : String → ProcessingStatus → String → Op
  mark_ready : String → String → String → String → ℕ → ℕ → ℕ → Op

pub data Answer : Type 0 where
  error : Error → Answer
  avatar : Result (Option Avatar) → Answer
  flag : Result Bool → Answer

module _ {W : Type 0} (store : Storage W) where
  answered {ℓ} : {A : Type ℓ} → (A → Answer) → A × W → Answer × W
  answered f (a, w) = (f a, w)

  unfoldable pub perform : Op → W → Answer × W
  unfolding answered
  perform (upsert a) w = answered error (store.upsert_avatar a w)
  perform (get user_id) w = answered avatar (store.get_avatar user_id w)
  perform (remove user_id) w = answered error (store.delete_avatar user_id w)
  perform (set_status user_id status msg) w =
      answered error (store.update_avatar_status user_id status msg w)
  perform (mark_ready user_id original_key thumb_key content_type size width height) w =
      answered error
        (store.mark_avatar_ready user_id original_key thumb_key content_type size width height w)
  perform (is_processed message_id) w = answered flag (store.is_message_processed message_id w)
  perform (mark_processed message_id) w = answered error (store.mark_message_processed message_id w)

  unfoldable pub perform_all : List Op → W → List Answer × W
  unfolding perform
  perform_all [] w = ([], w)
  perform_all (op ∷ ops) w =
      let (a, w') = perform op w in let (rest, w'') = perform_all ops w' in (a ∷ rest, w'')
