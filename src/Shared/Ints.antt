-- ===== src/Shared/Ints.antt =====
-- Conversions between Go's integer types.
use twitter_microservices.Prelude.{
  ℕ, ◌-◌, ◌%◌, ◌^◌, ◌==◌, if◌then◌else◌, ltb, ℤ, pos, negsuc, Bool, true, false,
}

-- A 32-bit pattern read as an int32.
abbrev pub signed_32 : ℕ → ℤ
signed_32 n = if ltb n (2 ^ 31) then pos n else negsuc (2 ^ 32 - 1 - n)

-- int32(n)
abbrev pub to_int32 : ℤ → ℤ
to_int32 (pos n) = signed_32 (n % 2 ^ 32)
to_int32 (negsuc n) = signed_32 (2 ^ 32 - 1 - n % 2 ^ 32)

-- n > 0
abbrev pub is_positive : ℤ → Bool
is_positive (pos n) = ltb 0 n
is_positive (negsuc n) = false

-- n <= m, for m ≥ 0
abbrev pub at_most : ℤ → ℕ → Bool
at_most (pos n) m = if ltb m n then false else true
at_most (negsuc n) m = true

abbrev pub same_int : ℤ → ℤ → Bool
same_int (pos a) (pos b) = a == b
same_int (negsuc a) (negsuc b) = a == b
same_int _ _ = false
