-- ===== src/Router/Limits.antt =====
-- How often the API of cmd/api/main.go runs UploadAvatar: the limiter of internal/handler/ratelimit.go in
-- front of the routes of internal/handler/router.go.
use avatars.Prelude.{ℕ, ◌+◌, ◌-◌, ◌*◌, ◌≤◌, String, List, [], ◌∷◌, ◌≡◌, refl, sym, arith, ap}
use mathlib.Core.Path.{subst}
use avatars.Http.{Response}
use avatars.Handler.{Handler}
use avatars.RateLimit.{token}
use avatars.RateLimit.Bucket.{IsMonotone, last_time, elapsed_mul, le-last_time}
use avatars.RateLimit.Middleware.{middleware_limiter}
use avatars.Metrics.{HttpMetrics}
use avatars.Router.Serving.{Arrival, Server}
use avatars.Recording.{Acts, recorded_handler}
use avatars.Router.Runs.{runs, server, IsBalanced, serve_one, root-IsBalanced}

abbrev pub times : List Arrival → List ℕ
times [] = []
times (a ∷ later) = a.now ∷ times later

module _ {W : Type 0} (decode : String → String) (html : String) (metrics : HttpMetrics W)
    (promhttp : W → Response × W) where
  -- The requests in the order in which they come in.
  unfoldable pub serve_all : List Arrival → Server (W × Acts) → Server (W × Acts)
  serve_all [] s = s
  serve_all (a ∷ later) s = serve_all later (serve_one metrics promhttp decode html a s).1

  abbrev Step : Server (W × Acts) → Arrival → Server (W × Acts) → Type 0
  Step s a s' = IsBalanced a.now s.limiter s.world.1 s'

  root-gain :
      (h : Handler W) (s : Server (W × Acts)) (a : Arrival)
      → s.handler ≡ recorded_handler h
      → s.limiter.last ≤ a.now
      → Step s a (serve_one metrics promhttp decode html a s).1
  root-gain h s a same e =
      subst (λ x. Step s a (serve_one metrics promhttp decode html a (record s { handler = x })).1)
        (sym same)
        (root-IsBalanced h decode html metrics promhttp a s.limiter s.world.0 s.world.1 e)

  serve_all-gain :
      (arrivals : List Arrival) (s : Server (W × Acts)) (t : ℕ)
      → ((h : Handler W) × (s.handler ≡ recorded_handler h))
      → s.limiter.last ≤ t
      → IsMonotone t (times arrivals)
      → runs (serve_all arrivals s).world.1 * token + s.limiter.last * s.limiter.refill
        ≤ runs s.world.1 * token
          + s.limiter.tokens
          + last_time t (times arrivals) * s.limiter.refill
  unfolding serve_all
  serve_all-gain [] s t kept e _ = omega (arith, elapsed_mul s.limiter.last t s.limiter.refill e)
  serve_all-gain (a ∷ later) s t (h, same) e (m, ms) =
      let s' = (serve_one metrics promhttp decode html a s).1 in
      let (kept, gain, le, refill) = root-gain h s a same (omega (arith, e, m)) in
      let ih = serve_all-gain later s' a.now kept le ms in
      let same_rate : last_time a.now (times later) * s'.limiter.refill
          ≡ last_time a.now (times later) * s.limiter.refill =
        ap (λ x. last_time a.now (times later) * x) refill in
      let same_start : s'.limiter.last * s'.limiter.refill ≡ s'.limiter.last * s.limiter.refill =
        ap (λ x. s'.limiter.last * x) refill in
      omega (arith, gain, ih, same_rate, same_start)

-- Of any requests to the API that come in at times that do not go back, at whatever paths and with
-- whatever methods, and whatever the storage, the object store and the broker answer: the runs of
-- UploadAvatar, in units, are no more than 30 tokens and what the time since the start has brought,
-- 30 tokens a minute.
pub uploads_le :
    {W : Type 0} (decode : String → String) (html : String) (metrics : HttpMetrics W)
    (promhttp : W → Response × W) (h : Handler W) (w : W) (start : ℕ) (arrivals : List Arrival)
    → IsMonotone start (times arrivals)
    → runs
          (serve_all decode html metrics promhttp arrivals
            (server h (middleware_limiter start) w [])).world.1
        * token
      ≤ 30 * token + (last_time start (times arrivals) - start) * 30
uploads_le decode html metrics promhttp h w start arrivals m =
    let l = middleware_limiter start in
    let starts : (l.last ≡ start) × (l.tokens ≡ 30 * token) × (l.refill ≡ 30) =
      unfold middleware_limiter in (refl, refl, refl) in
    let gain =
      serve_all-gain decode html metrics promhttp arrivals (server h l w []) start (h, refl)
        (omega (arith, starts)) m in
    let now = last_time start (times arrivals) in
    let rates : runs (serve_all decode html metrics promhttp arrivals (server h l w [])).world.1
            * token
          + start * 30
        ≤ 30 * token + now * 30 =
      ground (arith, gain, starts) in
    omega (arith, elapsed_mul start now 30 (le-last_time start (times arrivals) m), rates)
