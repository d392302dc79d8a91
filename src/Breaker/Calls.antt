-- ===== src/Breaker/Calls.antt =====
-- What a caller of the breaker sees.
use avatars.Prelude.{
  ℕ, ◌+◌, ◌%◌, ◌≤◌, ◌<◌, ℤ, ◌≡◌, ◌∙◌, some, ◌∷◌, arith, ltb, Error, Failure, open_circuit,
}
use avatars.Breaker.{Breaker, new_breaker, is_open, finish, call}
use avatars.Breaker.Laws.{
  History, finish_all, trailing_failures, last_trip, refuses, is_open-finish_all,
}

module _ {W : Type 0} (fn : W → Error × W) (max_failures cooldown : ℤ) (before : History)
    (e : Failure) (tripped entered left : ℕ) (w : W) where
  -- The breaker after the calls of `before` and one more, which failed at the time `tripped`.
  abbrev after : Breaker
  after = finish_all ((some e, tripped) ∷ before) (new_breaker max_failures cooldown)

  abbrev IsTrip : Type 0
  IsTrip = (trailing_failures before + 1) % (new_breaker max_failures cooldown).max_failures ≡ 0

  is_open-after :
      IsTrip
      → is_open entered after ≡ ltb entered (tripped + (new_breaker max_failures cooldown).cooldown)
  is_open-after trip =
      is_open-finish_all ((some e, tripped) ∷ before) max_failures cooldown entered
      ∙ unfold last_trip refuses in ground arith

  -- When the last finished call of a breaker made by NewBreaker was a failure whose number since the
  -- success before it is a multiple of the threshold, a call that enters within a cooldown of it
  -- returns ErrOpen, does not run `fn` and changes nothing.
  pub call-refused :
      IsTrip
      → entered < tripped + (new_breaker max_failures cooldown).cooldown
      → call fn entered left after w ≡ (some open_circuit, after, w)
  unfolding call
  call-refused trip soon = ground (arith, is_open-after trip)

  -- After the same failure, a call that enters when the cooldown is over runs `fn` once, returns its
  -- error and settles the breaker by it.
  pub call-admitted :
      IsTrip
      → tripped + (new_breaker max_failures cooldown).cooldown ≤ entered
      → call fn entered left after w ≡ ((fn w).0, finish (fn w).0 left after, (fn w).1)
  unfolding call
  call-admitted trip late = ground (arith, is_open-after trip)
