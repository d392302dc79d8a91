-- ===== src/Tests/Env.antt =====
-- Environments for the examples: the storage in memory, and object stores and channels that accept
-- or refuse everything.
use avatars.Prelude.{◌/◌, ◌*◌, ℕ, none, some, [], ◌∷◌, Error, other, Result, ok, err}
use avatars.Models.{Avatar, zero_avatar, status_ready, status_pending}
use avatars.Queue.{AvatarProcessMessage}
use avatars.Storage.Mem.{MemStorage, mem_storage}
use avatars.Handler.{Bytes, Handler}
use avatars.Worker.{Service}
use avatars.Processor.{Codec}
use avatars.Queue.Consumer.{Consumer, Delivery}

-- A user's avatar that is being processed, and one that is ready.
abbrev pub pending : Avatar
pending = record zero_avatar {
  user_id = "ann";
  status = status_pending;
  staging_key = "staging/ann/m1";
  message_id = "m1";
  created_at = 5;
}

abbrev pub ready : Avatar
ready = record zero_avatar {
  user_id = "bob";
  status = status_ready;
  original_key = "avatars/bob/original.png";
  thumbnail_key = "avatars/bob/thumb.png";
  size_bytes = 7;
  created_at = 6;
}

abbrev pub mem : MemStorage
mem = record { now = 10; avatars = ("ann", pending) ∷ ("bob", ready) ∷ []; processed = [] }

-- A handler whose object store and publisher answer as given.
abbrev pub handler_with : Error → Error → Handler MemStorage
handler_with stored sent = record {
  store = mem_storage;
  objects = record {
    upload = λ _ _ _ m. (stored, m);
    delete = λ _ m. (none, m);
    presigned_url = λ key _ m. (ok key, m);
  };
  publisher = record { publish_avatar_process = λ _ m. (sent, m) };
  metrics = record { count_upload = λ _ m. m };
  max_upload = 4;
  url_expiry = 900;
  db_breaker = record { max_failures = 5; cooldown = 30; failures = 0; open_until = 0 };
}

-- A codec over images that are a width and a height; every file decodes to the same image.
abbrev pub codec : Codec
codec = record {
  Image = ℕ × ℕ;
  width = λ s. s.0;
  height = λ s. s.1;
  decode_jpeg = λ _. ok (1024, 600);
  decode_png = λ _. ok (1024, 600);
  decode = λ _. err (other "image: unknown format");
  scale = λ w h _. (w, h);
  png_encode = λ s. ok (s.0 ∷ s.1 ∷ []);
}

abbrev pub jpeg_file : Bytes
jpeg_file = 0xff ∷ 0xd8 ∷ 0xff ∷ []

-- A service whose object store holds `jpeg_file` under every key, or nothing.
abbrev pub service_with : Result Bytes → Service MemStorage
service_with staged = record {
  store = mem_storage;
  objects = record {
    upload = λ _ _ _ m. (none, m);
    download = λ _ m. (staged, m);
    delete = λ _ m. (none, m);
  };
}

abbrev pub message_of_ann : AvatarProcessMessage
message_of_ann = record { message_id = "m1"; user_id = "ann"; staging_key = "staging/ann/m1" }

-- A consumer whose handler answers as given and whose channel takes every message.
abbrev pub consumer_with : Error → Consumer MemStorage
consumer_with handled = record {
  ch = record { publish = λ _ _ _ m. (none, m) };
  acks = record { ack = λ m. m; nack = λ _ m. m };
  store = mem_storage;
  unmarshal = λ _. some message_of_ann;
  handler = λ _ _ m. (handled, m);
}

abbrev pub delivery : Delivery
delivery = record { body = 1 ∷ 2 ∷ []; message_id = "m1"; headers = none }

-- A server that keeps the microseconds of a time.
abbrev pub microseconds : ℕ → ℕ
microseconds t = t / 1000 * 1000
