-- ===== src/System.antt =====
-- The two programs together: a storage, an object store that holds what it is given, and a broker that
-- keeps what is published. The handlers, the consumer and the worker run over this one state.
pub mod Uploading
pub mod Working
pub mod OverPostgres
pub mod Isolation
pub mod Idempotency
pub mod Refinement
pub mod Rows
pub mod Settling
pub mod Orphans
pub mod Redelivery
pub mod Broker
pub mod EndToEnd
use Prim.Native.String as Str
use avatars.Prelude.{
  ℕ, suc, ℤ, ◌≡◌, String, Bool, Option, none, some, List, [], ◌∷◌, Assoc, lookup, insert, delete,
  ◌==◌, Error, other, Result, ok, err, if◌then◌else◌,
}
use avatars.Models.{Avatar}
use avatars.Storage.{Storage}
use avatars.Handler
use avatars.Handler.{Bytes, Handler, new_handler}
use avatars.Worker
use avatars.Worker.{Service, handle}
use avatars.Processor.{Codec}
use avatars.Queue.{AvatarProcessMessage}
use avatars.Queue.Retry.{Table, Publishing, publish_avatar_process}
use avatars.Queue.Consumer.{Consumer, Delivery}

-- `sent` is what was published, the latest first, with its exchange and key; `acked` and `nacked`
-- count the settlements of deliveries.
pub record World (V : Type 0) : Type 0 where
  pub db : V
  pub files : Assoc Bytes
  pub sent : List (String × String × Publishing)
  pub acked : ℕ
  pub nacked : ℕ

-- encoding/json at AvatarProcessMessage.
pub record Json : Type 0 where
  pub marshal : AvatarProcessMessage → Bytes
  pub unmarshal : Bytes → Option AvatarProcessMessage

abbrev pub held : Option Bytes → Result Bytes
held none = err (other "no such key")
held (some content) = ok content

-- A signed URL is the key behind a prefix.
abbrev pub sign : String → String
sign key = Str.◌++◌ "https://s3/" key

module _ {V : Type 0} where
  abbrev on_db {ℓ} : {A : Type ℓ} → (V → A × V) → World V → A × World V
  on_db f w = let (a, v) = f w.db in (a, record w { db = v })

  abbrev pub lifted : Storage V → Storage (World V)
  lifted s = record {
    upsert_avatar = λ a. on_db (s.upsert_avatar a);
    get_avatar = λ k. on_db (s.get_avatar k);
    delete_avatar = λ k. on_db (s.delete_avatar k);
    update_avatar_status = λ k status msg. on_db (s.update_avatar_status k status msg);
    mark_avatar_ready = λ k o t ct size w h. on_db (s.mark_avatar_ready k o t ct size w h);
    is_message_processed = λ k. on_db (s.is_message_processed k);
    mark_message_processed = λ k. on_db (s.mark_message_processed k);
    total_storage_bytes = on_db s.total_storage_bytes;
    ping = on_db s.ping;
    close = on_db s.close;
  }

  abbrev put_file : String → Bytes → String → World V → Error × World V
  put_file key content _ w = (none, record w { files = insert key content w.files })

  abbrev get_file : String → World V → Result Bytes × World V
  get_file key w = (held (lookup key w.files), w)

  abbrev delete_files : List String → World V → Error × World V
  delete_files [] w = (none, w)
  delete_files (key ∷ keys) w =
      delete_files keys (if key == "" then w else record w { files = delete key w.files })

  abbrev pub keep_sent : String → String → Publishing → World V → Error × World V
  keep_sent exchange key m w = (none, record w { sent = (exchange, key, m) ∷ w.sent })

  abbrev pub api : Storage V → Json → Table → ℤ → Handler (World V)
  api s json injected max_upload =
      new_handler (lifted s)
        (record {
          upload = put_file;
          delete = delete_files;
          presigned_url = λ key _ w. (ok (sign key), w);
        })
        (record {
          publish_avatar_process =
              publish_avatar_process (record { publish = keep_sent }) (λ m. ok (json.marshal m))
                injected;
        })
        (record { count_upload = λ _ w. w }) max_upload

  abbrev pub service : Storage V → Service (World V)
  service s = record {
    store = lifted s;
    objects = record { upload = put_file; download = get_file; delete = delete_files };
  }

  abbrev pub consumer : Storage V → Json → Codec → Consumer (World V)
  consumer s json c = record {
    ch = record { publish = keep_sent };
    acks = record {
      ack = λ w. record w { acked = suc w.acked };
      nack = λ _ w. record w { nacked = suc w.nacked };
    };
    store = lifted s;
    unmarshal = json.unmarshal;
    handler = λ msg _. handle c (service s) msg;
  }

-- The delivery of what was published, and of the latest message.
abbrev pub delivery_of : Publishing → Delivery
delivery_of m = record { body = m.body; message_id = m.message_id; headers = m.headers }

abbrev pub latest : {V : Type 0} → World V → Option Delivery
latest w = elim w.sent [ [] ↦ none | ◌∷◌ (_, _, m) _ ↦ some (delivery_of m) ]
