-- ===== src/Prelude/Int.antt =====
-- Signed integers, for Go's int64 values.
use Prim.Native.Nat.{ℕ, ◌-◌, ◌^◌, ◌<◌}
use twitter_microservices.Prelude.Tests.{leb, if◌then◌else◌}

-- `negsuc n` is -(n + 1).
pub data ℤ : Type 0 where
  pos : ℕ → ℤ
  negsuc : ℕ → ℤ

-- The values of an int64.
abbrev pub IsInt64 : ℤ → Type 0
IsInt64 (pos n) = n < 2 ^ 63
IsInt64 (negsuc n) = n < 2 ^ 63

-- `-` applied to a natural number.
abbrev pub neg : ℕ → ℤ
neg n = if leb n 0 then pos 0 else negsuc (n - 1)
