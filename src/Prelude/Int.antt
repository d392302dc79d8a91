-- ===== src/Prelude/Int.antt =====
-- Go's signed `int` and `int64` as integers; an operation that can leave the range says how it wraps.
use Prim.Native.Nat.{ℕ, zero, suc, ◌+◌, ◌^◌}
use avatars.Prelude.Tests.{eqb, if◌then◌else◌}

-- `negsuc n` is -(n + 1).
pub data ℤ : Type 0 where
  pos : ℕ → ℤ
  negsuc : ℕ → ℤ

-- n + 1 in 64 bits: the largest number is followed by the least.
unfoldable pub add_one : ℤ → ℤ
add_one (pos n) = if eqb (n + 1) (2 ^ 63) then negsuc n else pos (n + 1)
add_one (negsuc zero) = pos 0
add_one (negsuc (suc n)) = negsuc n

-- A parameter that is replaced by a default where it is not positive.
unfoldable pub positive_or : ℕ → ℤ → ℕ
positive_or fallback (pos zero) = fallback
positive_or fallback (pos (suc n)) = suc n
positive_or fallback (negsuc n) = fallback
