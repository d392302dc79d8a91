-- ===== src/Prelude/Errors.antt =====
-- Go's `error` values. `nil` is `none`; a call that returns a value and an error is a `Result`.
use Prim.Native.String.{String}
use Prim.Native.String as Str
use mathlib.Core.Path.{◌≡◌, refl}
use mathlib.Core.Logic.{◌⊎◌, inl, inr}
use mathlib.Core.Option.{Option}

-- `not_found` and `open_circuit` are the sentinels `storage.ErrNotFound` and `resilience.ErrOpen`; `other` is
-- any error of another origin, with its message; `wrap p e` is `fmt.Errorf("p: %w", e)`.
pub data Failure : Type 0 where
  not_found open_circuit : Failure
  other : String → Failure
  wrap : String → Failure → Failure

abbrev pub Error : Type 0
Error = Option Failure

-- err.Error()
unfoldable pub message : Failure → String
message not_found = "not found"
message open_circuit = "circuit breaker open"
message (other s) = s
message (wrap p e) = Str.◌++◌ p (Str.◌++◌ ": " (message e))

pub data Result {ℓ} (A : Type ℓ) : Type ℓ where
  ok : A → Result A
  err : Failure → Result A

pub Result-cases {ℓ} :
    {A : Type ℓ} (r : Result A) → ((a : A) × (r ≡ ok a)) ⊎ ((e : Failure) × (r ≡ err e))
Result-cases (ok a) = inl (a, refl)
Result-cases (err e) = inr (e, refl)
