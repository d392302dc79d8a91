-- ===== src/RateLimit/Bucket.antt =====
-- How many uploads the limiter lets through.
use avatars.Prelude.{
  ℕ, suc, ◌+◌, ◌-◌, ◌*◌, ◌≤◌, ℤ, ◌≡◌, refl, ap, Bool, true, false, List, [], ◌∷◌, arith,
}
use avatars.RateLimit.{UploadRateLimiter, token, new_upload_rate_limiter, refilled, allow}

-- The calls of `allow` at the given times, in order: how many return true, and the final state.
unfoldable pub allow_all : List ℕ → UploadRateLimiter → ℕ × UploadRateLimiter
allow_all [] l = (0, l)
allow_all (now ∷ later) l =
    let (admitted, l') = allow now l in
    let (n, l'') = allow_all later l' in ((elim admitted [ true ↦ suc n | false ↦ n ]), l'')

-- The times never go back, from `t` on.
abbrev pub IsMonotone : ℕ → List ℕ → Type 0
IsMonotone t [] = Unit
IsMonotone t (now ∷ later) = (t ≤ now) × IsMonotone now later

-- The last of the times, or `t`.
abbrev pub last_time : ℕ → List ℕ → ℕ
last_time t [] = t
last_time t (now ∷ later) = last_time now later

abbrev pub spent : Bool → ℕ
spent true = token
spent false = 0

pub elapsed_mul : (last now r : ℕ) → last ≤ now → (now - last) * r + last * r ≡ now * r
elapsed_mul last now r h =
    let e : now - last + last ≡ now = omega arith in omega (arith, ap (λ (t : ℕ). t * r) e)

refill-refilled : (now : ℕ) (l : UploadRateLimiter) → (refilled now l).refill ≡ l.refill
unfolding refilled
refill-refilled now l = refl

-- One call spends no more than the bucket held and the time brought.
pub allow_gain :
    (now : ℕ) (l : UploadRateLimiter)
    → l.last ≤ now
    → (allow now l).1.tokens + spent (allow now l).0 + l.last * l.refill ≤ l.tokens + now * l.refill
unfolding allow
allow_gain now l h = ground (arith, elapsed_mul l.last now l.refill h)

pub refill-allow : (now : ℕ) (l : UploadRateLimiter) → (allow now l).1.refill ≡ l.refill
unfolding allow
refill-allow now l = ground arith

pub last-allow : (now : ℕ) (l : UploadRateLimiter) → (allow now l).1.last ≡ now
unfolding allow
last-allow now l = ground arith

allow_all_gain :
    (times : List ℕ) (l : UploadRateLimiter) (t : ℕ)
    → l.last ≡ t
    → IsMonotone t times
    → (allow_all times l).0 * token + t * l.refill ≤ l.tokens + last_time t times * l.refill
unfolding allow_all
allow_all_gain [] l t e h = omega arith
allow_all_gain (now ∷ later) l t e (h, hs) = ground (
  arith,
  allow_gain now l,
  refill-allow now l,
  allow_all_gain later (allow now l).1 now (last-allow now l) hs,
)

pub le-last_time : (t : ℕ) (times : List ℕ) → IsMonotone t times → t ≤ last_time t times
le-last_time t [] h = omega arith
le-last_time t (now ∷ later) (h, hs) = omega (arith, le-last_time now later hs)

-- From the limiter of NewUploadRateLimiter, made at `start` for any argument: when the readings of
-- the clock do not go back, the uploads let through by any sequence of calls, counted in units,
-- are no more than the full bucket and what the time since `start` has brought.
pub allow_all_le :
    (requests : ℤ) (start : ℕ) (times : List ℕ)
    → IsMonotone start times
    → (allow_all times (new_upload_rate_limiter requests start)).0 * token
      ≤ (new_upload_rate_limiter requests start).capacity
        + (last_time start times - start) * (new_upload_rate_limiter requests start).refill
allow_all_le requests start times h =
    let l = new_upload_rate_limiter requests start in
    let starts : (l.last ≡ start) × (l.tokens ≡ l.capacity) =
      unfold new_upload_rate_limiter in (refl, refl) in
    omega (
      arith,
      allow_all_gain times l start starts.0 h,
      elapsed_mul start (last_time start times) l.refill (le-last_time start times h),
    )

-- After a pause that brings one token, a limiter whose capacity is a token at least lets the next
-- call through.
pub allow_after_pause :
    (now : ℕ) (l : UploadRateLimiter)
    → token ≤ l.capacity
    → token ≤ (now - l.last) * l.refill
    → (allow now l).0 ≡ true
unfolding allow
allow_after_pause now l c p = ground arith

-- The tokens never exceed the capacity.
pub allow_le_capacity :
    (now : ℕ) (l : UploadRateLimiter) → (allow now l).1.tokens ≤ (allow now l).1.capacity
unfolding allow
allow_le_capacity now l = ground arith
