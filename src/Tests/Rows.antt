-- ===== src/Tests/Rows.antt =====
-- Examples for the rows of PostgreSQL.
use avatars.Prelude.{
  List, ◌*◌, ℕ, ◌+◌, ◌⊎◌, ◌≢◌, arith, eq_iff, pos, other, trim_space, ◌≡◌, refl, true, none, some,
  [], ◌∷◌, lookup, insert, ok,
}
use avatars.Handler.Upload.{UploadRequest, file, pending_avatar, upload_avatar}
use avatars.Storage.Mem
use avatars.Storage.Mem.{stamped}
use avatars.Storage.Postgres
use avatars.Storage.Postgres.{Postgres, Row, to_row, on_conflict, postgres_storage}
use avatars.Storage.Ops.{upsert, perform}
use avatars.Storage.Agreement.{kept}
use avatars.Storage.RoundTrip.{created_by, upsert-get}
use avatars.System.Rows.{good_row, is_made}
use avatars.System.Rows.Keeping.{empty, called, Reach-good_row}
use avatars.System.Rows.Calls.{
  all_made, upload_calls, get_calls, delete_calls, handle_calls, program-made,
}
use avatars.Handler.{Handler, new_handler}
use avatars.Handler.Avatars.{get_avatar, delete_avatar}
use avatars.Worker.{ObjectStore, handle}
use avatars.System.OverPostgres.{over_postgres, api_over_postgres}
use avatars.System.Settling.{IsReady, IsFailed, handle-settles}
use avatars.System.Isolation.{program-others}
use avatars.Storage.Mem.{MemStorage}
use avatars.System.{World, Json}
use avatars.System.Refinement.{
  Call, upload, get, delete, Users, spec, serve, Holds, answer_all, answer_all-Refines,
}
use avatars.Tests.Routes.{lost}
use avatars.Tests.Env.{
  microseconds, mem, pending, handler_with, service_with, codec, message_of_ann, jpeg_file,
}
use avatars.Tests.Images.{exact}

abbrev fresh : Postgres
fresh = record { timestamptz = microseconds; now = 9; avatars = []; processed = []; faults = [] }

-- Ann has uploaded a file.
abbrev uploaded : Postgres
uploaded = (perform postgres_storage (upsert (pending_avatar "ann" "m1")) fresh).1

abbrev row_of_ann : Row
row_of_ann = to_row microseconds 9 (pending_avatar "ann" "m1")

made : is_made (upsert (pending_avatar "ann" "m1")) ≡ true
unfolding is_made
made = refl

found : lookup "ann" uploaded.avatars ≡ some row_of_ann
unfolding perform Postgres.upsert_avatar lookup insert on_conflict
found = refl

Reach-good_row_example : good_row "ann" row_of_ann ≡ true
Reach-good_row_example =
    Reach-good_row uploaded "ann" row_of_ann
      (called fresh (upsert (pending_avatar "ann" "m1")) made (empty microseconds 9 [])) found

abbrev request : UploadRequest
request = record { user_id = " ann "; body_read = 3; form = file "a.png" (1 ∷ 2 ∷ []) }

program-made_example :
    (all_made (upload_calls (handler_with none none) mem "m1" request) ≡ true)
    × (all_made (get_calls (handler_with none none) mem "bob") ≡ true)
    × (all_made (delete_calls (handler_with none none) mem "bob") ≡ true)
    × (all_made (handle_calls codec (service_with (ok jpeg_file)) message_of_ann mem) ≡ true)
program-made_example =
    program-made (handler_with none none) codec (service_with (ok jpeg_file)) "m1" "bob" request
      message_of_ann mem exact

faultless : uploaded.faults ≡ []
unfolding perform Postgres.upsert_avatar
faultless = refl

upsert-get_example :
    ((Mem.get_avatar "ann" (Mem.upsert_avatar pending mem).1).0 ≡ ok (some (stamped 10 pending)))
    × ((Postgres.get_avatar "ann" (Postgres.upsert_avatar pending uploaded).1).0
        ≡ ok (
            some (
              let new = kept uploaded.timestamptz (stamped uploaded.now pending) in
              record new {
                created_at = created_by (lookup "ann" uploaded.avatars) new.created_at;
              })))
upsert-get_example =
    upsert-get pending mem uploaded faultless (omega arith, omega arith, omega arith)

abbrev objects : ObjectStore ℕ
objects = record {
  upload = λ _ _ _ n. (none, n + 1);
  download = λ _ n. (ok jpeg_file, n);
  delete = λ _ n. (none, n);
}

handle-settles_example :
    IsReady codec objects message_of_ann uploaded 0 row_of_ann
    ⊎ IsFailed codec objects message_of_ann uploaded 0 row_of_ann
handle-settles_example =
    handle-settles codec objects message_of_ann uploaded 0 row_of_ann faultless found

ann_is_not_bob : trim_space request.user_id ≢ "bob"
unfolding trim_space
ann_is_not_bob = ground (arith, eq_iff "ann" "bob")

abbrev handler : Handler ℕ
handler =
    new_handler lost
      (record {
        upload = λ _ _ _ n. (none, n);
        delete = λ _ n. (none, n);
        presigned_url = λ key _ n. (ok key, n);
      })
      (record { publish_avatar_process = λ _ n. (some (other "closed"), n) })
      (record { count_upload = λ _ n. n }) (pos 0)

program-others_example :
    (lookup "bob" (upload_avatar (api_over_postgres handler) "m1" request (uploaded, 0)).1.0.avatars
      ≡ lookup "bob" uploaded.avatars)
    × (lookup "bob" (delete_avatar (api_over_postgres handler) " ann " (uploaded, 0)).1.0.avatars
        ≡ lookup "bob" uploaded.avatars)
    × ((get_avatar (api_over_postgres handler) "bob" (uploaded, 0)).1.0.avatars ≡ uploaded.avatars)
    × (lookup "bob" (handle codec (over_postgres objects) message_of_ann (uploaded, 0)).1.0.avatars
        ≡ lookup "bob" uploaded.avatars)
program-others_example =
    program-others handler codec objects "m1" " ann " "bob" request message_of_ann "bob" uploaded 0
      ann_is_not_bob ann_is_not_bob (ground (arith, eq_iff "ann" "bob"))

abbrev world : World MemStorage
world = record {
  db = record { now = 9; avatars = []; processed = [] };
  files = [];
  sent = [];
  acked = 0;
  nacked = 0;
}

abbrev nobody : Users
nobody _ = none

nobody-Holds : Holds 9 nobody world
unfolding lookup
nobody-Holds = ((λ k. refl), refl)

abbrev json : Json
json = record { marshal = λ _. []; unmarshal = λ _. none }

abbrev requests : List Call
requests = upload "m1" request ∷ get "ann" ∷ delete "ann " ∷ get "ann" ∷ []

answer_all-Refines_example :
    ((answer_all (serve json none (pos 0)) requests world).0
      ≡ (answer_all (spec (5 * 1024 * 1024) 9) requests nobody).0)
    × Holds 9
        (answer_all (spec (5 * 1024 * 1024) 9) requests nobody).1
        (answer_all (serve json none (pos 0)) requests world).1
unfolding new_handler
answer_all-Refines_example =
    answer_all-Refines json none (pos 0) requests 9 nobody world nobody-Holds
