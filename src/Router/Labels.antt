-- ===== src/Router/Labels.antt =====
-- The path label under which internal/metrics/metrics.go counts a request that internal/handler/router.go
-- leads to a handler.
use avatars.Prelude.{String, Bool, true, false, ◌≡◌, refl, ap, ◌∙◌, List, arith}
use text.Mathlib.TextPositions.{starts_with-append}
use avatars.Metrics.{HttpMetrics, normalize_path, http_middleware}
use avatars.Http.{Request, Response}
use avatars.Router.{
  Route, index, health, ping, upload, get, delete, to, find_handler, segment_values, url_path,
}
use avatars.Router.Matching.{Place, at_health, at_ping, elsewhere, at_avatar, place}
use avatars.Router.Table.{table, find_handler-table}
use avatars.Router.Uploads.{url_path-at_avatar}

-- The routes of an avatar.
abbrev pub is_avatar : Route → Bool
is_avatar upload = true
is_avatar get = true
is_avatar delete = true
is_avatar index = false
is_avatar health = false
is_avatar ping = false

table-avatar :
    (method : String) (here : Place) (route : Route) (values : List String)
    → is_avatar route ≡ true
    → table method here ≡ to route values
    → (user_id : String) × (here ≡ at_avatar user_id)
table-avatar method (at_avatar user_id) route values avatar e = (user_id, refl)
table-avatar method at_health route values avatar e = ground arith
table-avatar method at_ping route values avatar e = ground arith
table-avatar method elsewhere route values avatar e = ground arith

normalize_path-find_handler :
    (decode : String → String) (method : String) (path : List String) (route : Route)
    (values : List String)
    → find_handler decode method path ≡ to route values
    → is_avatar route ≡ true
    → normalize_path (url_path decode path) ≡ "/api/avatars/{user_id}"
unfolding normalize_path
normalize_path-find_handler decode method path route values e avatar =
    let found : table method (place (segment_values decode path)) ≡ to route values =
      ground (arith, find_handler-table decode method path) in
    let (user_id, here) =
      table-avatar method (place (segment_values decode path)) route values avatar found in
    rw (url_path-at_avatar decode path user_id here, starts_with-append "/api/avatars/" user_id)
      (refl {a = "/api/avatars/{user_id}"})

-- A request that is led to UploadAvatar, GetAvatar or DeleteAvatar passes HTTPMiddleware with its answer
-- unchanged, and is counted once, under its method, the pattern of its path and the status of the answer:
-- the user id, which may be any text, is no part of the labels.
pub http_middleware-find_handler :
    {W : Type 0} (decode : String → String) (metrics : HttpMetrics W)
    (next : Request → W → Response × W) (r : Request) (path : List String) (route : Route)
    (values : List String) (w : W)
    → r.path ≡ url_path decode path
    → find_handler decode r.method path ≡ to route values
    → is_avatar route ≡ true
    → http_middleware metrics next r w ≡ (
      (next r w).0,
      metrics.count_request r.method "/api/avatars/{user_id}" (next r w).0.status (next r w).1,
    )
unfolding http_middleware
http_middleware-find_handler decode metrics next r path route values w there led avatar =
    let label : normalize_path r.path ≡ "/api/avatars/{user_id}" =
      ap normalize_path there
      ∙ normalize_path-find_handler decode r.method path route values led avatar in
    ap (λ l. ((next r w).0, metrics.count_request r.method l (next r w).0.status (next r w).1))
      label
