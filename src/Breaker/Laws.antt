-- ===== src/Breaker/Laws.antt =====
-- What the breaker's counter and its open interval say of the calls that have finished.
use avatars.Prelude.{
  ℕ, zero, suc, ◌+◌, ◌%◌, ◌<◌, ℤ, ◌≡◌, refl, sym, ap, ◌∙◌, Bool, false, Option, eqb, pos, negsuc,
  none, some, List, [], ◌∷◌, arith, leb, Error, ltb, if◌then◌else◌,
}
use native.Mathlib.Decide.{dec_lt}
use native.Mathlib.Nat.{mod-lt, mod-add-mod, mod_self, mod-eq_of_lt}
use avatars.Breaker.{Breaker, new_breaker, is_open, finish}

-- The outcomes of finished calls with the times when they finished, the latest first.
abbrev pub History : Type 0
History = List (Error × ℕ)

unfoldable pub finish_all : History → Breaker → Breaker
finish_all [] b = b
finish_all ((err, now) ∷ before) b = finish err now (finish_all before b)

-- How many calls have failed since the last one that succeeded.
unfoldable pub trailing_failures : History → ℕ
trailing_failures [] = 0
trailing_failures ((none, _) ∷ before) = 0
trailing_failures ((some _, _) ∷ before) = trailing_failures before + 1

-- Whether a trip at that time forbids a call at the time `now`.
unfoldable pub refuses : ℕ → ℕ → Option ℕ → Bool
refuses now cooldown none = false
refuses now cooldown (some trip) = ltb now (trip + cooldown)

pub max_failures-finish_all :
    (h : History) (b : Breaker) → (finish_all h b).max_failures ≡ b.max_failures
unfolding finish_all finish
max_failures-finish_all [] b = refl
max_failures-finish_all ((none, _) ∷ h) b = max_failures-finish_all h b
max_failures-finish_all ((some e, _) ∷ h) b = ground (arith, max_failures-finish_all h b)

pub cooldown-finish_all : (h : History) (b : Breaker) → (finish_all h b).cooldown ≡ b.cooldown
unfolding finish_all finish
cooldown-finish_all [] b = refl
cooldown-finish_all ((none, _) ∷ h) b = cooldown-finish_all h b
cooldown-finish_all ((some e, _) ∷ h) b = ground (arith, cooldown-finish_all h b)

next_remainder : (r m : ℕ) → r < m → (r + 1) % m ≡ (if leb m (r + 1) then 0 else r + 1)
next_remainder r m h = elim (dec_lt (r + 1) m) [
  | yes below ↦ mod-eq_of_lt below ∙ ground arith
  | no above ↦ let e : r + 1 ≡ m = omega arith in rw e (mod_self m ∙ ground arith)
]

mod_step : (t m : ℕ) → 0 < m → (t + 1) % m ≡ (if leb m (t % m + 1) then 0 else t % m + 1)
mod_step t m h = sym (mod-add-mod t m 1) ∙ next_remainder (t % m) m (mod-lt t h)

failures-finish_from :
    (h : History) (b : Breaker)
    → 0 < b.max_failures
    → b.failures ≡ 0
    → (finish_all h b).failures ≡ trailing_failures h % b.max_failures
unfolding finish_all finish trailing_failures
failures-finish_from [] b p z = ground arith
failures-finish_from ((none, _) ∷ h) b p z = ground arith
failures-finish_from ((some e, _) ∷ h) b p z = ground (
  arith,
  max_failures-finish_all h b,
  failures-finish_from h b p z,
  mod_step (trailing_failures h) b.max_failures,
)

pub positive_threshold :
    (max_failures cooldown : ℤ) → 0 < (new_breaker max_failures cooldown).max_failures
unfolding new_breaker
positive_threshold (pos zero) cooldown = omega arith
positive_threshold (pos (suc n)) cooldown = omega arith
positive_threshold (negsuc n) cooldown = omega arith

-- Whatever calls have finished, the failure counter of a breaker made by NewBreaker, for any
-- arguments, is the number of failures since the last success, modulo the threshold.
pub failures-finish_all :
    (h : History) (max_failures cooldown : ℤ)
    → (finish_all h (new_breaker max_failures cooldown)).failures
      ≡ trailing_failures h % (new_breaker max_failures cooldown).max_failures
failures-finish_all h max_failures cooldown =
    failures-finish_from h (new_breaker max_failures cooldown)
      (positive_threshold max_failures cooldown) (unfold new_breaker in refl)

-- The time when the breaker last tripped: a failure that brought the counter to the threshold.
unfoldable pub last_trip : ℕ → History → Option ℕ
last_trip m [] = none
last_trip m ((none, _) ∷ before) = last_trip m before
last_trip m ((some _, now) ∷ before) =
    let rest = last_trip m before in
    if eqb ((trailing_failures before + 1) % m) 0 then some now else rest

open_until_from : (b : Breaker) (trip : Option ℕ) → ℕ
open_until_from b none = b.open_until
open_until_from b (some now) = now + b.cooldown

open_until-finish_from :
    (h : History) (b : Breaker)
    → 0 < b.max_failures
    → b.failures ≡ 0
    → (finish_all h b).open_until ≡ open_until_from b (last_trip b.max_failures h)
unfolding finish_all finish last_trip open_until_from
open_until-finish_from [] b p z = refl
open_until-finish_from ((none, _) ∷ h) b p z = open_until-finish_from h b p z
open_until-finish_from ((some e, now) ∷ h) b p z = ground (
  arith,
  max_failures-finish_all h b,
  cooldown-finish_all h b,
  failures-finish_from h b p z,
  mod_step (trailing_failures h) b.max_failures,
  open_until-finish_from h b p z,
)

refuses_from :
    (b : Breaker) (trip : Option ℕ) (now : ℕ)
    → b.open_until ≡ 0
    → ltb now (open_until_from b trip) ≡ refuses now b.cooldown trip
unfolding open_until_from refuses
refuses_from b none now z = ground arith
refuses_from b (some trip) now z = refl

-- A breaker made by NewBreaker, for any arguments, refuses a call exactly until a full cooldown has
-- passed since its last trip: the last failure whose number, since the success before it, is a
-- multiple of the threshold. A breaker that never tripped refuses none.
pub is_open-finish_all :
    (h : History) (max_failures cooldown : ℤ) (now : ℕ)
    → is_open now (finish_all h (new_breaker max_failures cooldown))
      ≡ refuses now
          (new_breaker max_failures cooldown).cooldown
          (last_trip (new_breaker max_failures cooldown).max_failures h)
unfolding is_open
is_open-finish_all h max_failures cooldown now =
    let b = new_breaker max_failures cooldown in
    ap (ltb now) (
      open_until-finish_from h b (positive_threshold max_failures cooldown)
        (unfold new_breaker in refl))
    ∙ refuses_from b (last_trip b.max_failures h) now (unfold new_breaker in refl)
