-- ===== src/RateLimit.antt =====
-- internal/handler/ratelimit.go: the token bucket in front of the upload route. The source counts
-- tokens as float64; here they are exact, in units of 1 / (60 * 10 ^ 9) of a token, so that
-- `elapsed.Seconds() * refill`, with refill = capacity / 60, is the elapsed nanoseconds times the
-- capacity. The rounding of float64 is not modelled.
pub mod Bucket
pub mod Middleware
use avatars.Prelude.{
  ℕ, ◌+◌, ◌-◌, ◌*◌, ◌^◌, ℤ, String, Bool, true, false, ltb, has_prefix, positive_or, if◌then◌else◌,
}

-- Units in one token.
abbrev pub token : ℕ
token = 60 * 10 ^ 9

-- `tokens` and `capacity` in units, `refill` in units per nanosecond, `last` in nanoseconds.
pub record UploadRateLimiter : Type 0 where
  pub tokens : ℕ
  pub capacity : ℕ
  pub refill : ℕ
  pub last : ℕ

unfoldable pub is_avatar_upload_path : String → Bool
is_avatar_upload_path path = has_prefix path "/api/avatars/"

unfoldable pub new_upload_rate_limiter : ℤ → ℕ → UploadRateLimiter
unfolding positive_or
new_upload_rate_limiter requests_per_minute now =
    let requests = positive_or 60 requests_per_minute in
    record { tokens = requests * token; capacity = requests * token; refill = requests; last = now }

-- The bucket at the time `now`, before a token is taken. Readings of the clock never go back.
unfoldable pub refilled : ℕ → UploadRateLimiter → UploadRateLimiter
refilled now l =
    let tokens = l.tokens + (now - l.last) * l.refill in
    record l { last = now; tokens = if ltb l.capacity tokens then l.capacity else tokens }

take_token : UploadRateLimiter → Bool × UploadRateLimiter
take_token l =
    if ltb l.tokens token then (false, l) else (true, record l { tokens = l.tokens - token })

unfoldable pub allow : ℕ → UploadRateLimiter → Bool × UploadRateLimiter
unfolding refilled take_token
allow now l = take_token (refilled now l)
