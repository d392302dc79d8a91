-- ===== src/Router/Runs.antt =====
-- What one request to the API of cmd/api/main.go does to the limiter of internal/handler/ratelimit.go and to
-- the count of uploads.
use avatars.Prelude.{
  ℕ, suc, ◌+◌, ◌*◌, ◌≤◌, String, Bool, true, List, [], ◌∷◌, ◌==◌, ◌≡◌, refl, arith, if◌then◌else◌,
  if-elim, inl, inr, ap, ◌∙◌,
}
use avatars.Http.{Response}
use avatars.Handler.{Handler}
use avatars.Handler.Upload.{upload_avatar, UploadRequest}
use avatars.Handler.Avatars.{get_avatar, delete_avatar, to_response}
use avatars.Breaker as Breaker
use avatars.RateLimit.{UploadRateLimiter, token}
use avatars.RateLimit.Middleware.{is_limited, upload_rate_limit, step_gain, upload_rate_limit-cases}
use avatars.Metrics.{HttpMetrics, http_middleware}
use avatars.Handler.Avatars as Avatars
use avatars.Router.{
  url_path, ping, Found, index, health, get, delete, to, moved, upload, method_not_allowed,
  no_route, find_handler,
}
use avatars.Router.Uploads.{find_handler-upload}
use avatars.Router.Serving.{
  routed, path_value, upload_request, serve_found, serve_route, Arrival, Server, request_of,
  serve_mux, limited, root,
}
use avatars.Recording.{Acts, counted, recorded_handler}

-- The runs of UploadAvatar, each of which increments UploadsTotal once.
abbrev pub runs : Acts → ℕ
runs [] = 0
runs (counted _ ∷ acts) = suc (runs acts)
runs (_ ∷ acts) = runs acts

module _ {W : Type 0} (metrics : HttpMetrics W) (promhttp : W → Response × W) where
  abbrev beside_acts : HttpMetrics (W × Acts)
  beside_acts = record {
    count_request =
        λ method path status (w, acts). (metrics.count_request method path status w, acts);
  }

  abbrev page_beside_acts : W × Acts → Response × (W × Acts)
  page_beside_acts (w, acts) = let (resp, w1) = promhttp w in (resp, (w1, acts))

  -- One request at the root handler.
  abbrev pub serve_one :
      (String → String) → String → Arrival → Server (W × Acts) → Response × Server (W × Acts)
  serve_one decode html = root decode html beside_acts page_beside_acts

-- The API's state with every call of its handlers recorded.
abbrev pub server : {W : Type 0} → Handler W → UploadRateLimiter → W → Acts → Server (W × Acts)
server h l w acts = record { handler = recorded_handler h; limiter = l; world = (w, acts) }

-- What one request does to the API's state.
abbrev pub IsBalanced : {W : Type 0} → ℕ → UploadRateLimiter → Acts → Server (W × Acts) → Type 0
IsBalanced {W} now l acts s' =
    ((h' : Handler W) × (s'.handler ≡ recorded_handler h'))
    × (runs s'.world.1 * token + s'.limiter.tokens + l.last * l.refill
        ≤ runs acts * token + l.tokens + s'.limiter.last * l.refill)
    × (s'.limiter.last ≤ now)
    × (s'.limiter.refill ≡ l.refill)

module _ {W : Type 0} (h : Handler W) where
  upload-runs :
      (message_id : String) (r : UploadRequest) (w : W) (acts : Acts)
      → runs (upload_avatar (recorded_handler h) message_id r (w, acts)).1.1 ≡ suc (runs acts)
  unfolding upload_avatar
  upload-runs message_id r w acts = ground arith

  get-runs :
      (user_id : String) (w : W) (acts : Acts)
      → runs (get_avatar (recorded_handler h) user_id (w, acts)).1.1 ≡ runs acts
  unfolding get_avatar to_response
  get-runs user_id w acts = ground arith

  delete-runs :
      (user_id : String) (w : W) (acts : Acts)
      → runs (delete_avatar (recorded_handler h) user_id (w, acts)).1.1 ≡ runs acts
  unfolding delete_avatar
  delete-runs user_id w acts = ground arith

  module _ (decode : String → String) (html : String) where
    -- One request runs UploadAvatar at most once, and only if it is limited; the handlers stay as they
    -- are but for the breaker.
    abbrev IsCounted : Bool → Acts → Response × Handler (W × Acts) × (W × Acts) → Type 0
    IsCounted limited acts served =
        ((h' : Handler W) × (served.1 ≡ recorded_handler h'))
        × (runs served.2.1 ≤ (if limited then runs acts + 1 else runs acts))

    served-runs :
        (f : Found) (a : Arrival) (limited : Bool) (w : W) (acts : Acts)
        → ((values : List String) → f ≡ to upload values → limited ≡ true)
        → IsCounted limited acts (serve_found decode html f a (recorded_handler h) (w, acts))
    unfolding serve_found serve_route Avatars.ping Breaker.call
    served-runs moved a limited w acts g = ((h, refl), ground arith)
    served-runs method_not_allowed a limited w acts g = ((h, refl), ground arith)
    served-runs no_route a limited w acts g = ((h, refl), ground arith)
    served-runs (to index values) a limited w acts g = ((h, refl), ground arith)
    served-runs (to health values) a limited w acts g = ((h, refl), ground arith)
    served-runs (to ping values) a limited w acts g = (
      (
        record h {
          db_breaker = (Avatars.ping (recorded_handler h) a.entered a.left (w, acts)).1.db_breaker;
        },
        refl,
      ),
      ground arith,
    )
    served-runs (to get values) a limited w acts g =
        ((h, refl), ground (arith, get-runs (path_value values) w acts))
    served-runs (to delete values) a limited w acts g =
        ((h, refl), ground (arith, delete-runs (path_value values) w acts))
    served-runs (to upload values) a limited w acts g = (
      (h, refl),
      ground (arith, g values refl, upload-runs a.message_id (upload_request a values) w acts),
    )

    abbrev IsServed : Arrival → W → Acts → Type 0
    IsServed a w acts =
        IsCounted (is_limited (request_of decode a)) acts
          (serve_mux decode html a (recorded_handler h) (w, acts))

    serve_mux-runs : (a : Arrival) (w : W) (acts : Acts) → IsServed a w acts
    unfolding serve_mux
    serve_mux-runs a w acts =
        served-runs (find_handler decode a.method a.segments) a (is_limited (request_of decode a)) w
          acts λ values e. find_handler-upload decode a.method a.segments values e

    limited-IsBalanced :
        (a : Arrival) (l : UploadRateLimiter) (w : W) (acts : Acts)
        → l.last ≤ a.now
        → IsBalanced a.now l acts (limited decode html a (server h l w acts)).1
    unfolding limited upload_rate_limit
    limited-IsBalanced a l w acts e =
        let (kept, le) = serve_mux-runs a w acts in
        let gain = step_gain a.now l (request_of decode a) (runs acts) e in
        let kept_handler : (h' : Handler W) × ((limited decode html a (server h l w acts)).1.handler
              ≡ recorded_handler h') =
          elim (upload_rate_limit-cases (routed decode html a) a.now l (request_of decode a)
            (recorded_handler h, (w, acts))) [
              | inl same ↦ (h, ap (λ hw. hw.0) same)
              | inr served ↦ (kept.0, ap (λ hw. hw.0) served ∙ kept.1)
            ] in
        (kept_handler, ground (arith, gain, le), ground (arith, gain), ground (arith, gain))

    pub root-IsBalanced :
        (metrics : HttpMetrics W) (promhttp : W → Response × W) (a : Arrival)
        (l : UploadRateLimiter) (w : W) (acts : Acts)
        → l.last ≤ a.now
        → IsBalanced a.now l acts (serve_one metrics promhttp decode html a (server h l w acts)).1
    unfolding root http_middleware
    root-IsBalanced metrics promhttp a l w acts e =
        if-elim (λ (r : Response × Server (W × Acts)). IsBalanced a.now l acts r.1)
          (url_path decode a.segments == "/metrics") ((h, refl), omega arith, e, refl)
          (limited-IsBalanced a l w acts e)
