-- ===== src/Text/Decimal.antt =====
-- strconv.FormatInt(n, 10), strconv.ParseUint(s, 10, bits) and strconv.ParseInt(s, 10, bits). The
-- proofs are in the child.
pub mod RoundTrip
use twitter_microservices.Prelude.{
  ℕ, zero, suc, ◌+◌, ◌-◌, ◌*◌, ◌/◌, ◌%◌, ◌^◌, Bool, true, false, ◌||◌, Option, none, some, [], ◌∷◌,
  Bytes, ◌==◌, ltb, leb, if◌then◌else◌, ℤ, pos, negsuc, neg,
}

-- The digits of `n` in front of `out`. Each round divides by ten, so `n + 1` rounds are enough.
digits : ℕ → ℕ → Bytes → Bytes
digits zero n out = out
digits (suc f) n out =
    let rest = digits f (n / 10) ((b'0' + n % 10) ∷ out) in
    if ltb n 10 then (b'0' + n) ∷ out else rest

unfoldable pub format_uint : ℕ → Bytes
unfolding digits
format_uint n = digits (suc n) n []

-- strconv.FormatInt(i, 10)
unfoldable pub format_int : ℤ → Bytes
unfolding format_uint
format_int (pos n) = format_uint n
format_int (negsuc n) = b'-' ∷ format_uint (suc n)

-- The `Err` of a *strconv.NumError.
pub data NumError : Type 0 where
  err_syntax err_range : NumError

-- A number and an error: Go returns both, and a caller may read the number and drop the error.
pub record Parsed (A : Type 0) : Type 0 where
  pub value : A
  pub error : Option NumError

-- The loop of strconv.ParseUint: the first bad digit or the first overflow ends it.
scan : ℕ → Bytes → ℕ → Parsed ℕ
scan bits [] n = record { value = n; error = none }
scan bits (c ∷ s) n =
    let rest = scan bits s (n * 10 + (c - b'0')) in
    if ltb c b'0' || ltb b'9' c
    then record { value = 0; error = some err_syntax }
    else if leb (2 ^ bits) (n * 10 + (c - b'0'))
    then record { value = 2 ^ bits - 1; error = some err_range }
    else rest

unfoldable pub parse_uint : ℕ → Bytes → Parsed ℕ
unfolding scan
parse_uint bits [] = record { value = 0; error = some err_syntax }
parse_uint bits (c ∷ s) = scan bits (c ∷ s) 0

-- The tests of ParseInt on the magnitude, `negative` being the sign.
abbrev with_sign : ℕ → Bool → Parsed ℕ → Parsed ℤ
with_sign bits negative un = elim un.error [
  | some err_syntax ↦ record { value = pos 0; error = some err_syntax }
  | _ ↦
      if negative
      then (if ltb (2 ^ (bits - 1)) un.value
          then record { value = neg (2 ^ (bits - 1)); error = some err_range }
          else record { value = neg un.value; error = none })
      else (if leb (2 ^ (bits - 1)) un.value
          then record { value = pos (2 ^ (bits - 1) - 1); error = some err_range }
          else record { value = pos un.value; error = none })
]

-- strconv.ParseInt(s, 10, bits)
unfoldable pub parse_int : ℕ → Bytes → Parsed ℤ
unfolding parse_uint
parse_int bits [] = record { value = pos 0; error = some err_syntax }
parse_int bits (c ∷ s) =
    if c == b'-'
    then with_sign bits true (parse_uint bits s)
    else if c == b'+'
    then with_sign bits false (parse_uint bits s)
    else with_sign bits false (parse_uint bits (c ∷ s))
