-- ===== src/Breaker.antt =====
-- internal/resilience/breaker.go: the circuit breaker. Call takes the lock twice, before and after it
-- runs `fn`, so it is two transitions, `is_open` and `finish`, with a reading of the clock each.
pub mod Laws
pub mod Calls
pub mod Interleaving
use avatars.Prelude.{
  ℕ, ◌+◌, ◌*◌, ◌^◌, ℤ, Bool, none, some, ltb, leb, Error, open_circuit, positive_or, if◌then◌else◌,
}

-- Times and durations are in nanoseconds; `open_until` is 0 at first, Go's zero time.
pub record Breaker : Type 0 where
  pub max_failures : ℕ
  pub cooldown : ℕ
  pub failures : ℕ
  pub open_until : ℕ

unfoldable pub new_breaker : ℤ → ℤ → Breaker
unfolding positive_or
new_breaker max_failures cooldown = record {
  max_failures = positive_or 5 max_failures;
  cooldown = positive_or (30 * 10 ^ 9) cooldown;
  failures = 0;
  open_until = 0;
}

-- time.Now().Before(b.openUntil)
unfoldable pub is_open : ℕ → Breaker → Bool
is_open now b = ltb now b.open_until

-- What Call does after `fn` has returned, at the time `now`.
unfoldable pub finish : Error → ℕ → Breaker → Breaker
finish none now b = record b { failures = 0 }
finish (some _) now b =
    let failures = b.failures + 1 in
    if leb b.max_failures failures
    then record b { failures = 0; open_until = now + b.cooldown }
    else record b { failures = failures }

-- Call, when no other call is in flight: `entered` and `left` are the two readings of the clock.
unfoldable pub call : {W : Type 0} → (W → Error × W) → ℕ → ℕ → Breaker → W → Error × Breaker × W
unfolding is_open finish
call fn entered left b w =
    if is_open entered b
    then (some open_circuit, b, w)
    else (let (err, w') = fn w in (err, finish err left b, w'))
