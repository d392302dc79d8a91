-- ===== src/RateLimit/Middleware.antt =====
-- UploadRateLimitMiddleware of internal/handler/ratelimit.go.
use avatars.Prelude.{
  ℕ, ◌+◌, ◌-◌, ◌*◌, ◌≤◌, List, [], ◌∷◌, ◌≡◌, refl, Bool, true, false, ◌&&◌, ◌==◌, arith, pos,
  if◌then◌else◌, Bool-cases, ◌⊎◌, inl, inr,
}
use avatars.Http.{Request, Response, error_response, no_body}
use avatars.RateLimit.{
  UploadRateLimiter, token, is_avatar_upload_path, new_upload_rate_limiter, allow,
}
use avatars.RateLimit.Bucket.{
  IsMonotone, last_time, allow_gain, refill-allow, last-allow, elapsed_mul, le-last_time,
}

unfoldable pub is_limited : Request → Bool
unfolding is_avatar_upload_path
is_limited r = r.method == "POST" && is_avatar_upload_path r.path

abbrev pub rate_limited : Response
rate_limited = record { status = 429; body = error_response "rate limit exceeded" }

-- The limiter that UploadRateLimitMiddleware makes, of 30 requests per minute.
unfoldable pub middleware_limiter : ℕ → UploadRateLimiter
unfolding new_upload_rate_limiter
middleware_limiter now = new_upload_rate_limiter (pos 30) now

module _ {W : Type 0} (next : Request → W → Response × W) where
  admit : Bool → UploadRateLimiter → Request → W → Response × UploadRateLimiter × W
  admit false l r w = (rate_limited, l, w)
  admit true l r w = let (resp, w') = next r w in (resp, l, w')

  -- The returned handler, at the time `now`.
  unfoldable pub upload_rate_limit :
      ℕ → UploadRateLimiter → Request → W → Response × UploadRateLimiter × W
  unfolding admit is_limited
  upload_rate_limit now l r w =
      if is_limited r
      then (let (admitted, l') = allow now l in admit admitted l' r w)
      else admit true l r w

-- The state behind the middleware is that of before, or that which the next handler leaves.
pub upload_rate_limit-cases :
    {W : Type 0} (next : Request → W → Response × W) (now : ℕ) (l : UploadRateLimiter) (r : Request)
    (w : W)
    → ((upload_rate_limit next now l r w).2 ≡ w)
      ⊎ ((upload_rate_limit next now l r w).2 ≡ (next r w).1)
unfolding upload_rate_limit
upload_rate_limit-cases next now l r w = elim (Bool-cases (is_limited r)) [
  | inr free ↦ inr (rw free refl)
  | inl limited ↦ elim (Bool-cases (allow now l).0) [
    | inl admitted ↦ inr (rw (limited, admitted) refl)
    | inr refused ↦ inl (rw (limited, refused) refl)
  ]
]

-- A next handler that only counts the uploads that reach it.
abbrev pub counting : Request → ℕ → Response × ℕ
counting r n = (record { status = 200; body = no_body }, if is_limited r then n + 1 else n)

-- The requests that come in at the given times, in order; the result counts the uploads that passed.
unfoldable pub serve_all : List (ℕ × Request) → UploadRateLimiter → ℕ → ℕ
serve_all [] l n = n
serve_all ((now, r) ∷ later) l n =
    let (_, l', n') = upload_rate_limit counting now l r n in serve_all later l' n'

abbrev pub times : List (ℕ × Request) → List ℕ
times [] = []
times ((now, _) ∷ later) = now ∷ times later

-- One request: the tokens, the time and the uploads that passed balance.
pub step_gain :
    (now : ℕ) (l : UploadRateLimiter) (r : Request) (n : ℕ)
    → l.last ≤ now
    → let s = upload_rate_limit counting now l r n in
      (s.2 * token + s.1.tokens + l.last * l.refill ≤ n * token + l.tokens + s.1.last * l.refill)
      × (s.1.last ≤ now)
      × (s.1.refill ≡ l.refill)
unfolding upload_rate_limit
step_gain now l r n h = ground (arith, allow_gain now l h, refill-allow now l, last-allow now l)

serve_all_gain :
    (rs : List (ℕ × Request)) (l : UploadRateLimiter) (t n : ℕ)
    → l.last ≤ t
    → IsMonotone t (times rs)
    → serve_all rs l n * token + l.last * l.refill
      ≤ n * token + l.tokens + last_time t (times rs) * l.refill
unfolding serve_all
serve_all_gain [] l t n e h = omega (arith, elapsed_mul l.last t l.refill e)
serve_all_gain ((now, r) ∷ later) l t n e (h, hs) = ground (
  arith,
  step_gain now l r n,
  serve_all_gain later (upload_rate_limit counting now l r n).1 now
      (upload_rate_limit counting now l r n).2 (step_gain now l r n (omega arith)).1 hs,
)

-- Of any requests that come in at times that do not go back, the uploads that the middleware lets
-- through, in units, are no more than 30 tokens and what the time since its start has brought, 30
-- tokens a minute. Requests that are no uploads do not count.
pub upload_rate_limit_le :
    (start : ℕ) (rs : List (ℕ × Request))
    → IsMonotone start (times rs)
    → serve_all rs (middleware_limiter start) 0 * token
      ≤ 30 * token + (last_time start (times rs) - start) * 30
upload_rate_limit_le start rs h =
    let l = middleware_limiter start in
    let starts : (l.last ≡ start) × (l.tokens ≡ 30 * token) × (l.refill ≡ 30) =
      unfold middleware_limiter in (refl, refl, refl) in
    let now = last_time start (times rs) in
    let gain : serve_all rs l 0 * token + start * 30 ≤ 30 * token + now * 30 =
      ground (arith, serve_all_gain rs l start 0 (omega arith) h) in
    omega (arith, elapsed_mul start now 30 (le-last_time start (times rs) h))
