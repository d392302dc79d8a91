-- ===== src/Tests/Routes.antt =====
-- Examples for the routes, the API's root handler and the pings.
use avatars.Prelude.{
  ℕ, ◌+◌, ◌-◌, ◌*◌, ◌≤◌, ◌≡◌, refl, String, List, [], ◌∷◌, none, some, arith, pos, other, ok, false,
  if◌then◌else◌,
}
use avatars.Http.{Response, no_body}
use avatars.Handler.{new_handler, ObjectStore, Publisher, Metrics}
use avatars.Breaker as Breaker
use avatars.Breaker.{new_breaker}
use avatars.Handler.Upload.{file}
use avatars.Handler.Pings.{Times, ping_all, answers, ping_all-new_handler}
use avatars.Handler.Avatars.{ping}
use avatars.RateLimit.{token}
use avatars.RateLimit.Bucket.{last_time}
use avatars.RateLimit.Middleware.{middleware_limiter}
use avatars.Router.Labels.{http_middleware-find_handler}
use avatars.Router.{
  to, upload, url_path, patterns, match_method, match_path, is_clean, find_handler, moved,
  segment_values,
}
use avatars.Router.Matching.{place}
use avatars.Router.Table.{is_kept, table, find_handler-table}
use avatars.Router.Serving.{Arrival}
use avatars.Router.Runs.{runs, server}
use avatars.Router.Limits.{serve_all, times, uploads_le}
use avatars.Metrics.{HttpMetrics, http_middleware}
use avatars.Http.{Request, Response, no_body}
use avatars.Storage.{Storage}
use avatars.Storage.Mem.{MemStorage}
use avatars.Tests.Env.{mem, handler_with}

abbrev plainly : String → String
plainly s = s

abbrev upload_path : List String
upload_path = "api" ∷ "avatars" ∷ "ann" ∷ []

find_handler-table_example : find_handler plainly "POST" upload_path ≡ (
    if is_kept "POST" upload_path
    then table "POST" (place (segment_values plainly upload_path))
    else moved)
find_handler-table_example = find_handler-table plainly "POST" upload_path

led_to_upload : find_handler plainly "POST" upload_path ≡ to upload ("ann" ∷ [])
unfolding find_handler patterns match_method match_path is_clean segment_values
led_to_upload = refl

-- The counted requests, by their labels.
abbrev labels : HttpMetrics (List (String × String × ℕ))
labels = record { count_request = λ method path status seen. (method, path, status) ∷ seen }

abbrev accept : Request → List (String × String × ℕ) → Response × List (String × String × ℕ)
accept _ seen = (record { status = 202; body = no_body }, seen)

http_middleware-find_handler_example :
    http_middleware labels accept (record { method = "POST"; path = "/api/avatars/ann" }) []
    ≡ (record { status = 202; body = no_body }, ("POST", "/api/avatars/{user_id}", 202) ∷ [])
http_middleware-find_handler_example =
    http_middleware-find_handler plainly labels accept
      (record { method = "POST"; path = "/api/avatars/ann" }) upload_path upload ("ann" ∷ []) []
      (unfold url_path in refl) led_to_upload refl

abbrev arrival : ℕ → Arrival
arrival now = record {
  method = "POST";
  segments = upload_path;
  body_read = 3;
  form = file "a.png" (1 ∷ 2 ∷ []);
  message_id = "m1";
  now = now;
  entered = now;
  left = now;
}

abbrev arrivals : List Arrival
arrivals = arrival 5 ∷ arrival 6 ∷ []

abbrev no_metrics : HttpMetrics MemStorage
no_metrics = record { count_request = λ _ _ _ m. m }

abbrev scraped : MemStorage → Response × MemStorage
scraped m = (record { status = 200; body = no_body }, m)

uploads_le_example :
    runs
        (serve_all plainly "<html>" no_metrics scraped arrivals
          (server (handler_with none none) (middleware_limiter 5) mem [])).world.1
      * token
    ≤ 30 * token + (last_time 5 (times arrivals) - 5) * 30
uploads_le_example =
    uploads_le plainly "<html>" no_metrics scraped (handler_with none none) mem 5 arrivals
      (omega arith, (omega arith, tt))

-- A storage that cannot be reached, and counts the pings.
abbrev pub lost : Storage ℕ
lost = record {
  upsert_avatar = λ _ n. (none, n);
  get_avatar = λ _ n. (ok none, n);
  delete_avatar = λ _ n. (none, n);
  update_avatar_status = λ _ _ _ n. (none, n);
  mark_avatar_ready = λ _ _ _ _ _ _ _ n. (none, n);
  is_message_processed = λ _ n. (ok false, n);
  mark_message_processed = λ _ n. (none, n);
  total_storage_bytes = λ n. (ok 0, n);
  ping = λ n. (some (other "down"), n + 1);
  close = λ n. (none, n);
}

abbrev objects : ObjectStore ℕ
objects = record {
  upload = λ _ _ _ n. (none, n);
  delete = λ _ n. (none, n);
  presigned_url = λ key _ n. (ok key, n);
}

abbrev publisher : Publisher ℕ
publisher = record { publish_avatar_process = λ _ n. (none, n) }

abbrev metrics : Metrics ℕ
metrics = record { count_upload = λ _ n. n }

abbrev seven : List Times
seven = (1, 1) ∷ (2, 2) ∷ (3, 3) ∷ (4, 4) ∷ (5, 5) ∷ (6, 6) ∷ (30000000005, 30000000006) ∷ []

ping_all-new_handler_example :
    ping_all seven (new_handler lost objects publisher metrics (pos 0)) 0 ≡ answers lost seven [] 0
ping_all-new_handler_example = ping_all-new_handler lost objects publisher metrics (pos 0) seven 0

-- The sixth ping does not reach the database, and the seventh does.
six_reach : (ping_all seven (new_handler lost objects publisher metrics (pos 0)) 0).1 ≡ 6
unfolding ping_all ping new_handler new_breaker Breaker.call
six_reach = refl
