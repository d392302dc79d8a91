-- ===== src/Breaker/Interleaving.antt =====
-- Calls of the breaker by many goroutines: the lock is free while `fn` runs, so calls overlap.
use avatars.Prelude.{ℕ, suc, ◌+◌, ◌≤◌, ◌<◌, ◌≡◌, true, false, arith, Error, ℤ}
use avatars.Breaker.{Breaker, new_breaker, is_open, finish}
use avatars.Breaker.Laws.{positive_threshold}

-- The breaker, the present time, how many calls run `fn`, and how many `fn`s have been started.
pub record Shared : Type 0 where
  pub breaker : Breaker
  pub now : ℕ
  pub in_flight : ℕ
  pub started : ℕ

-- One step of one goroutine, or of the clock.
pub data Step (s : Shared) : Shared → Type 0 where
  tick : (n : ℕ) → Step s (record s { now = s.now + n })
  -- Call found the breaker closed, and begins to run `fn`
  enter :
      is_open s.now s.breaker ≡ false
      → Step s (record s { in_flight = suc s.in_flight; started = suc s.started })
  -- Call found the breaker open, and returned ErrOpen
  reject : is_open s.now s.breaker ≡ true → Step s s
  -- `fn` returned `err`, and Call returns
  leave :
      (err : Error) (n : ℕ)
      → s.in_flight ≡ suc n
      → Step s (record s { breaker = finish err s.now s.breaker; in_flight = n })

pub data Reach (s : Shared) : Shared → Type 0 where
  here : Reach s s
  next : {t u : Shared} → Reach s t → Step t u → Reach s u

abbrev pub start : Breaker → Shared
start b = record { breaker = b; now = 0; in_flight = 0; started = 0 }

-- The counter stays below the threshold, the breaker is open for a cooldown at most, and no more
-- calls are in flight than were started.
pub record IsSound (s : Shared) : Type 0 where
  pub threshold : 0 < s.breaker.max_failures
  pub counter : s.breaker.failures < s.breaker.max_failures
  pub horizon : s.breaker.open_until ≤ s.now + s.breaker.cooldown
  pub counted : s.in_flight ≤ s.started

Step-IsSound : {s t : Shared} → Step s t → IsSound s → IsSound t
unfolding finish
Step-IsSound (tick n) h = ground arith
Step-IsSound (enter closed) h = ground arith
Step-IsSound (reject refused) h = h
Step-IsSound (leave err n e) h = ground arith

-- However the calls of a breaker made by NewBreaker overlap, for any arguments, in every state that
-- is reached the counter is below the threshold, the breaker is open for a cooldown at most, and no
-- more calls are in flight than were started.
pub Reach-IsSound :
    (max_failures cooldown : ℤ) {s : Shared}
    → Reach (start (new_breaker max_failures cooldown)) s
    → IsSound s
Reach-IsSound max_failures cooldown here = record {
  threshold = positive_threshold max_failures cooldown;
  counter = unfold new_breaker in positive_threshold max_failures cooldown;
  horizon = unfold new_breaker in omega arith;
  counted = omega arith;
}
Reach-IsSound max_failures cooldown (next r st) =
    Step-IsSound st (Reach-IsSound max_failures cooldown r)
