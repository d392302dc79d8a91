-- ===== src/Recording.antt =====
-- The program's calls of its environment, recorded. Any environment over states `W` is turned into one
-- that does the same and notes each call with its answer, so that a theorem about the notes holds in
-- every environment.
pub mod Upload
pub mod Deliveries
pub mod Settling
pub mod Handling
pub mod Retries
pub mod Avatars
use avatars.Prelude.{ℕ, String, Bool, Option, List, ◌∷◌, Error, Result}
use avatars.Models.{Avatar, ProcessingStatus}
use avatars.Storage.{Storage}
use avatars.Queue.{AvatarProcessMessage}
use avatars.Handler.{Bytes, Handler}
use avatars.Worker.{Service}
use avatars.Queue.Retry.{Publishing}
use avatars.Queue.Consumer.{Consumer}

-- A call with its arguments and its answer.
pub data Act : Type 0 where
  upserted : Avatar → Error → Act
  got : String → Result (Option Avatar) → Act
  removed marked : String → Error → Act
  set_status : String → ProcessingStatus → String → Error → Act
  made_ready : String → String → String → String → ℕ → ℕ → ℕ → Error → Act
  looked_up : String → Result Bool → Act
  totalled : Result ℕ → Act
  pinged closed : Error → Act
  uploaded : String → Bytes → String → Error → Act
  downloaded : String → Result Bytes → Act
  deleted : List String → Error → Act
  presigned : String → ℕ → Result String → Act
  published : AvatarProcessMessage → Error → Act
  counted : String → Act
  sent : String → String → Publishing → Error → Act
  ran : AvatarProcessMessage → Error → Act
  acked : Act
  nacked : Bool → Act

-- The latest call comes first.
abbrev pub Acts : Type 0
Acts = List Act

module _ {W : Type 0} where
  abbrev note {ℓ} : {A : Type ℓ} → (A → Act) → (W → A × W) → W × Acts → A × (W × Acts)
  note act f (w, acts) = let (a, w1) = f w in (a, (w1, act a ∷ acts))

  abbrev note_effect : Act → (W → W) → W × Acts → W × Acts
  note_effect act f (w, acts) = (f w, act ∷ acts)

  abbrev pub recorded_storage : Storage W → Storage (W × Acts)
  recorded_storage s = record {
    upsert_avatar = λ a. note (upserted a) (s.upsert_avatar a);
    get_avatar = λ k. note (got k) (s.get_avatar k);
    delete_avatar = λ k. note (removed k) (s.delete_avatar k);
    update_avatar_status =
        λ k status msg. note (set_status k status msg) (s.update_avatar_status k status msg);
    mark_avatar_ready = λ k o t ct size w h.
        note (made_ready k o t ct size w h) (s.mark_avatar_ready k o t ct size w h);
    is_message_processed = λ k. note (looked_up k) (s.is_message_processed k);
    mark_message_processed = λ k. note (marked k) (s.mark_message_processed k);
    total_storage_bytes = note totalled s.total_storage_bytes;
    ping = note pinged s.ping;
    close = note closed s.close;
  }

  abbrev pub recorded_handler : Handler W → Handler (W × Acts)
  recorded_handler h = record {
    store = recorded_storage h.store;
    objects = record {
      upload = λ k content t. note (uploaded k content t) (h.objects.upload k content t);
      delete = λ ks. note (deleted ks) (h.objects.delete ks);
      presigned_url = λ k expiry. note (presigned k expiry) (h.objects.presigned_url k expiry);
    };
    publisher = record {
      publish_avatar_process = λ msg. note (published msg) (h.publisher.publish_avatar_process msg);
    };
    metrics = record {
      count_upload = λ label. note_effect (counted label) (h.metrics.count_upload label);
    };
    max_upload = h.max_upload;
    url_expiry = h.url_expiry;
    db_breaker = h.db_breaker;
  }

  abbrev pub recorded_service : Service W → Service (W × Acts)
  recorded_service s = record {
    store = recorded_storage s.store;
    objects = record {
      upload = λ k content t. note (uploaded k content t) (s.objects.upload k content t);
      download = λ k. note (downloaded k) (s.objects.download k);
      delete = λ ks. note (deleted ks) (s.objects.delete ks);
    };
  }

  abbrev pub recorded_consumer : Consumer W → Consumer (W × Acts)
  recorded_consumer c = record {
    ch = record {
      publish = λ exchange key msg. note (sent exchange key msg) (c.ch.publish exchange key msg);
    };
    acks = record {
      ack = note_effect acked c.acks.ack;
      nack = λ requeue. note_effect (nacked requeue) (c.acks.nack requeue);
    };
    store = recorded_storage c.store;
    unmarshal = c.unmarshal;
    handler = λ msg d. note (ran msg) (c.handler msg d);
  }
