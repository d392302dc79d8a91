-- ===== src/Tests/Breakers.antt =====
-- Examples for the breaker: a threshold of 2 and a cooldown of 10.
use avatars.Prelude.{◌≡◌, refl, false, some, pos, other}
use avatars.Breaker.{Breaker, new_breaker, is_open, finish}
use avatars.Breaker.Interleaving.{
  Shared, tick, enter, leave, Reach, here, next, IsSound, start, Reach-IsSound,
}

abbrev fresh : Breaker
fresh = new_breaker (pos 2) (pos 10)

-- Two calls enter before the first of them fails.
abbrev end : Shared
end = record { breaker = finish (some (other "down")) 3 fresh; now = 3; in_flight = 1; started = 2 }

both_enter : is_open 0 fresh ≡ false
unfolding is_open new_breaker
both_enter = refl

overlapping : Reach (start fresh) end
overlapping =
    next (next (next (next here (enter both_enter)) (enter both_enter)) (tick 3))
      (leave (some (other "down")) 1 refl)

Reach-IsSound_example : IsSound end
Reach-IsSound_example = Reach-IsSound (pos 2) (pos 10) overlapping
