-- ===== src/Router/Serving.antt =====
-- The handler that NewMux of internal/handler/router.go returns, with Index of internal/web/web.go, and
-- the root handler of cmd/api/main.go around it.
use avatars.Prelude.{ℕ, ℤ, String, List, [], ◌∷◌, ◌==◌, if◌then◌else◌}
use avatars.Http.{Request, Response, no_body, plain}
use avatars.Handler.{Handler, ObjectStore, Publisher, Metrics, new_handler}
use avatars.Storage.{Storage}
use avatars.Handler.Upload.{Form, UploadRequest, upload_avatar}
use avatars.Handler.Avatars.{get_avatar, delete_avatar}
use avatars.Handler.Avatars as Avatars
use avatars.RateLimit.{UploadRateLimiter}
use avatars.RateLimit.Middleware.{middleware_limiter, upload_rate_limit}
use avatars.Metrics.{HttpMetrics, http_middleware}
use avatars.Router.{
  Route, index, health, ping, upload, get, delete, Found, to, moved, method_not_allowed, no_route,
  url_path, find_handler,
}

-- A request with what the handlers draw on while they serve it: the body, the message id that
-- uuid.NewString returns, and the readings of the clock by the limiter and the breaker.
pub record Arrival : Type 0 where
  pub method : String
  pub segments : List String
  pub body_read : ℕ
  pub form : Form
  pub message_id : String
  pub now : ℕ
  pub entered : ℕ
  pub left : ℕ

-- What the handlers keep between requests, beside the world of their storage, objects and broker.
pub record Server (W : Type 0) : Type 0 where
  pub handler : Handler W
  pub limiter : UploadRateLimiter
  pub world : W

-- What `run` of cmd/api/main.go sets up from the storage, the object store and the publisher, at the time
-- `now`.
unfoldable pub new_server :
    {W : Type 0} → Storage W → ObjectStore W → Publisher W → Metrics W → ℤ → ℕ → W → Server W
unfolding new_handler middleware_limiter
new_server store objects publisher metrics max_upload now w = record {
  handler = new_handler store objects publisher metrics max_upload;
  limiter = middleware_limiter now;
  world = w;
}

-- r.PathValue("user_id"), the only wildcard.
abbrev pub path_value : List String → String
path_value [] = ""
path_value (value ∷ _) = value

abbrev not_found_page : Response
not_found_page = record { status = 404; body = plain "404 page not found\n" }

-- web.Index, for the text of its page.
unfoldable pub serve_index : String → String → Response
serve_index html path =
    if path == "/" then record { status = 200; body = plain html } else not_found_page

-- `decode` is url.PathUnescape at a segment.
abbrev pub request_of : (String → String) → Arrival → Request
request_of decode a = record { method = a.method; path = url_path decode a.segments }

abbrev pub upload_request : Arrival → List String → UploadRequest
upload_request a values = record {
  user_id = path_value values;
  body_read = a.body_read;
  form = a.form;
}

abbrev paired : {W : Type 0} → Response × Handler W × W → Response × (Handler W × W)
paired (resp, h, w) = (resp, (h, w))

-- `html` is static/index.html.
module _ {W : Type 0} (decode : String → String) (html : String) where
  -- A handler that leaves the breaker alone.
  abbrev keeping : Handler W → Response × W → Response × Handler W × W
  keeping h (resp, w) = (resp, h, w)

  unfoldable pub serve_route :
      Route → List String → Arrival → Handler W → W → Response × Handler W × W
  unfolding serve_index
  serve_route index values a h w = (serve_index html (url_path decode a.segments), h, w)
  serve_route health values a h w = (record { status = 200; body = plain "ok" }, h, w)
  serve_route ping values a h w = Avatars.ping h a.entered a.left w
  serve_route upload values a h w =
      keeping h (upload_avatar h a.message_id (upload_request a values) w)
  serve_route get values a h w = keeping h (get_avatar h (path_value values) w)
  serve_route delete values a h w = keeping h (delete_avatar h (path_value values) w)

  unfoldable pub serve_found : Found → Arrival → Handler W → W → Response × Handler W × W
  serve_found (to route values) a h w = serve_route route values a h w
  serve_found moved a h w = (record { status = 301; body = no_body }, h, w)
  serve_found method_not_allowed a h w =
      (record { status = 405; body = plain "Method Not Allowed\n" }, h, w)
  serve_found no_route a h w = (not_found_page, h, w)

  -- The ServeMux that NewMux returns.
  unfoldable pub serve_mux : Arrival → Handler W → W → Response × Handler W × W
  unfolding serve_route serve_found
  serve_mux a h w = serve_found (find_handler decode a.method a.segments) a h w

  -- The mux as the middleware calls it.
  abbrev pub routed : Arrival → Request → Handler W × W → Response × (Handler W × W)
  routed a _ hw = paired (serve_mux a hw.0 hw.1)

  unfoldable pub limited : Arrival → Server W → Response × Server W
  limited a s =
      let (resp, l, (h, w)) =
        upload_rate_limit (routed a) a.now s.limiter (request_of decode a) (s.handler, s.world) in
      (resp, record { handler = h; limiter = l; world = w })

  -- HTTPRequestsTotal and HTTPRequestDuration.
  abbrev counting : HttpMetrics W → HttpMetrics (Server W)
  counting metrics = record {
    count_request = λ method path status s. record s {
      world = metrics.count_request method path status s.world;
    };
  }

  -- `root`; the spans of otelhttp are left out. `promhttp` is the page of the Prometheus client.
  unfoldable pub root :
      HttpMetrics W → (W → Response × W) → Arrival → Server W → Response × Server W
  unfolding limited
  root metrics promhttp a s =
      if url_path decode a.segments == "/metrics"
      then (let (resp, w) = promhttp s.world in (resp, record s { world = w }))
      else http_middleware (counting metrics) (λ _ s1. limited a s1) (request_of decode a) s
