-- ===== src/Tests/Systems.antt =====
-- Examples for the two programs together.
use avatars.Prelude.{
  ℕ, suc, ◌≡◌, refl, String, none, some, [], ◌∷◌, arith, eq_iff, pos, ok, lookup, trim_space, Error,
  other, ext, to_lower,
}
use avatars.Models.{Avatar, zero_avatar, status_processing, status_failed}
use avatars.Http.{avatar_response}
use avatars.Storage.Mem.{MemStorage, mem_storage, made_ready, with_status}
use avatars.Storage.Postgres.{Postgres}
use avatars.Handler.{new_handler}
use avatars.Handler.Files.{allowed_extension}
use avatars.Handler.Upload.{UploadRequest, file, accepted, upload_checks, process_message}
use avatars.Handler.Avatars.{get_avatar, response_of}
use avatars.Processor.{
  ProcessedImage, process, decode_image, check_size, encode_png, resize_image, scaled_size,
}
use avatars.Worker.{original_key_of, thumb_key_of}
use avatars.System.{World, Json, api, latest, sign}
use avatars.System.Uploading.{uploading, message}
use avatars.System.Working
use avatars.System.Working.{handle-made_ready}
use avatars.System.Redelivery
use avatars.System.Redelivery.{lost, handle-twice}
use avatars.System.Orphans.{handled, handle-orphans}
use avatars.System.EndToEnd
use avatars.System.EndToEnd.{upload-deliver-get}
use avatars.Config.App.{AppOptions, defaults}
use avatars.Commands.{Resources, Api, WorkerProgram, server_failed, drained, run_api, run_worker}
use avatars.Tests.Env.{microseconds, codec, jpeg_file, message_of_ann}

abbrev json : Json
json = record { marshal = λ _. 1 ∷ []; unmarshal = λ _. some (process_message "ann" "m1") }

abbrev request : UploadRequest
request = record { user_id = " ann "; body_read = 300; form = file "me.jpg" jpeg_file }

abbrev world : World MemStorage
world = record {
  db = record { now = 7; avatars = []; processed = [] };
  files = [];
  sent = [];
  acked = 0;
  nacked = 0;
}

abbrev processed : ProcessedImage
processed = record {
  original_png = 512 ∷ 300 ∷ [];
  thumbnail_png = 128 ∷ 75 ∷ [];
  width = 512;
  height = 300;
  content_type = "image/jpeg";
  size_bytes = 2;
}

is_processed : process codec jpeg_file ≡ ok processed
unfolding process decode_image check_size encode_png resize_image scaled_size
is_processed = refl

abbrev user : String
user = EndToEnd.user codec json none (pos 4) "m1" request world

abbrev uploaded : World MemStorage
uploaded = EndToEnd.uploaded codec json none (pos 4) "m1" request world

abbrev deliver : World MemStorage → World MemStorage
deliver = EndToEnd.deliver codec json none (pos 4) "m1" request world

abbrev finished : Avatar
finished = EndToEnd.ready_avatar codec json none (pos 4) "m1" request world processed

is_accepted :
    upload_checks (api mem_storage json none (pos 4)).max_upload request
    ≡ accepted user "me.jpg" jpeg_file
unfolding upload_checks trim_space allowed_extension ext to_lower new_handler
is_accepted = refl

is_encoded :
    json.unmarshal (json.marshal (process_message user "m1")) ≡ some (process_message user "m1")
unfolding trim_space
is_encoded = refl

upload-deliver-get_example :
    ((uploading json none (pos 4) "m1" request world).0.status ≡ 202)
    × (latest uploaded ≡ some (message json none user "m1"))
    × ((get_avatar (api mem_storage json none (pos 4)) " ann " (deliver uploaded)).0 ≡ record {
      status = 200;
      body = avatar_response (record (response_of finished) {
        original_url = sign (original_key_of user);
        thumbnail_url = sign (thumb_key_of user);
      });
    })
    × (deliver (deliver uploaded)
        ≡ record (deliver uploaded) { acked = suc (deliver uploaded).acked })
upload-deliver-get_example =
    upload-deliver-get codec json none (pos 4) "m1" request world "me.jpg" jpeg_file processed
      is_accepted is_encoded refl (unfold lookup in refl) is_processed

-- A newer upload has replaced the row; the older message is handled.
abbrev newer : Avatar
newer = record zero_avatar { user_id = "ann"; message_id = "m2"; staging_key = "staging/ann/m2" }

abbrev replaced : World MemStorage
replaced = record world {
  db = record { now = 9; avatars = ("ann", newer) ∷ []; processed = [] };
  files = ("staging/ann/m1", jpeg_file) ∷ [];
}

abbrev after : Error × World MemStorage
after =
    Working.after codec message_of_ann replaced newer jpeg_file processed (unfold lookup in refl)
      (unfold lookup in refl) is_processed

abbrev twice_finished : Avatar
twice_finished =
    made_ready (original_key_of "ann") (thumb_key_of "ann") "image/jpeg" 2 512 300 9
      (with_status status_processing "" 9 newer)

handle-twice_example :
    let w1 = (Redelivery.handled codec message_of_ann replaced).1 in
    ((Redelivery.handled codec message_of_ann replaced).0 ≡ none)
    × (lookup "ann" w1.db.avatars ≡ some twice_finished)
    × ((Redelivery.handled codec message_of_ann w1).0 ≡ some (other "no such key"))
    × (lookup "ann" (Redelivery.handled codec message_of_ann w1).1.db.avatars
        ≡ some (lost w1 twice_finished))
    × ((lost w1 twice_finished).status ≡ status_failed)
handle-twice_example =
    handle-twice codec message_of_ann replaced newer jpeg_file processed (unfold lookup in refl)
      (unfold lookup in refl) is_processed refl

-- The user "ann" has been deleted.
abbrev emptied : World Postgres
emptied = record {
  db = record { timestamptz = microseconds; now = 9; avatars = []; processed = []; faults = [] };
  files = ("staging/ann/m1", jpeg_file) ∷ [];
  sent = [];
  acked = 0;
  nacked = 0;
}

handle-orphans_example :
    ((handled codec message_of_ann emptied).0 ≡ none)
    × (lookup (original_key_of "ann") (handled codec message_of_ann emptied).1.files
        ≡ some (512 ∷ 300 ∷ []))
    × (lookup (thumb_key_of "ann") (handled codec message_of_ann emptied).1.files
        ≡ some (128 ∷ 75 ∷ []))
    × ((handled codec message_of_ann emptied).1.db ≡ emptied.db)
handle-orphans_example =
    handle-orphans codec message_of_ann emptied jpeg_file processed refl (unfold lookup in refl)
      (unfold lookup in refl) (ground (arith, eq_iff "staging/ann/m1" "avatars/ann/original.png"))
      (ground (arith, eq_iff "staging/ann/m1" "avatars/ann/thumb.png"))
      (ground (arith, eq_iff "avatars/ann/original.png" "avatars/ann/thumb.png")) is_processed

-- A worker whose broker cannot be reached, and an API whose server fails.
abbrev resources : Error → Resources ℕ
resources connected = record {
  init_telemetry = λ _ _ n. (none, n);
  shutdown_telemetry = λ n. n;
  new_store = λ _ n. (none, n);
  close_store = λ n. n;
  new_client = λ _ n. (none, n);
  connect = λ _ n. (connected, n);
  close_channel = λ n. n;
  close_connection = λ n. n;
  start_storage_poller = λ n. n;
}

abbrev pub failing_api : Api ℕ
failing_api = record {
  resources = resources none;
  ensure_bucket = λ n. (none, n);
  serve = λ _ n. (server_failed (other "address in use"), n);
  shutdown_server = λ n. (none, n);
}

abbrev pub failing_worker : WorkerProgram ℕ
failing_worker = record {
  resources = resources (some (other "connection refused"));
  management = λ _. none;
  start_depth_poller = λ n. n;
  start_metrics_server = λ _ n. n;
  consume = λ n. (drained, n);
  shutdown_server = λ n. (none, n);
}

abbrev pub with_database : AppOptions
with_database = record defaults { database_dsn = "postgres://db" }

they_fail :
    ((run_api failing_api "avatars" with_database 0).0 ≡ 1)
    × ((run_worker failing_worker "avatars" with_database 0).0 ≡ 1)
unfolding run_api run_worker
they_fail = (refl, refl)
