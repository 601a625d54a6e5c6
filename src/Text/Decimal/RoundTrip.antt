-- ===== src/Text/Decimal/RoundTrip.antt =====
-- Every int64 is read back from its decimal print, and the print holds digits and a sign only.
use twitter_microservices.Prelude.{
  ℕ, zero, suc, ◌+◌, ◌/◌, ◌%◌, ◌^◌, ◌≤◌, ◌<◌, ◌≡◌, ◌≢◌, ◌⊎◌, inl, inr, refl, Bool-cases, none, [],
  ◌∷◌, arith, Bytes, ltb, All, ℤ, pos, negsuc, IsInt64,
}
use twitter_microservices.Text.Decimal.{
  digits, format_uint, format_int, scan, parse_uint, parse_int,
}

scan-digits :
    (f n : ℕ) (out : Bytes) → n < f → n < 2 ^ 64 → scan 64 (digits f n out) 0 ≡ scan 64 out n
unfolding scan digits
scan-digits zero n out h fits = absurd (omega arith)
scan-digits (suc f) n out h fits = ground (arith, scan-digits f (n / 10) ((b'0' + n % 10) ∷ out))

-- The first byte of a print is a digit.
abbrev StartsWithDigit : Bytes → Type 0
StartsWithDigit [] = ⊥
StartsWithDigit (c ∷ s) = (b'0' ≤ c) × (c ≤ b'9')

digits-StartsWithDigit : (f n : ℕ) (out : Bytes) → n < f → StartsWithDigit (digits f n out)
unfolding digits
digits-StartsWithDigit zero n out h = absurd (omega arith)
digits-StartsWithDigit (suc f) n out h =
    ground (arith, digits-StartsWithDigit f (n / 10) ((b'0' + n % 10) ∷ out))

parse_uint-scan : (s : Bytes) → StartsWithDigit s → parse_uint 64 s ≡ scan 64 s 0
unfolding parse_uint
parse_uint-scan [] h = absurd h
parse_uint-scan (c ∷ s) h = refl

parse_uint-format :
    (n : ℕ) → n < 2 ^ 64 → parse_uint 64 (format_uint n) ≡ record { value = n; error = none }
unfolding format_uint scan
parse_uint-format n h =
    rw (parse_uint-scan _ (digits-StartsWithDigit (suc n) n [] (omega arith)))
      (scan-digits (suc n) n [] (omega arith) h)

parse_int-unsigned :
    (s : Bytes) (n : ℕ)
    → StartsWithDigit s
    → n < 2 ^ 63
    → parse_uint 64 s ≡ record { value = n; error = none }
    → parse_int 64 s ≡ record { value = pos n; error = none }
unfolding parse_int
parse_int-unsigned [] n h fits e = absurd h
parse_int-unsigned (c ∷ s) n h fits e = ground arith

-- Every int64 is read back from its decimal print.
pub parse_int-format_int :
    (i : ℤ) → IsInt64 i → parse_int 64 (format_int i) ≡ record { value = i; error = none }
unfolding format_int
parse_int-format_int (pos n) h =
    parse_int-unsigned (format_uint n) n
      (unfold format_uint in digits-StartsWithDigit (suc n) n [] (omega arith)) h
      (parse_uint-format n (omega arith))
parse_int-format_int (negsuc n) h =
    unfold parse_int in ground (arith, parse_uint-format (suc n) (omega arith))

-- A byte that is no digit.
abbrev IsNoDigit : ℕ → Type 0
IsNoDigit b = (b < b'0') ⊎ (b'9' < b)

digits-Lacks :
    (b f n : ℕ) (out : Bytes)
    → IsNoDigit b
    → All (λ c. c ≢ b) out
    → All (λ c. c ≢ b) (digits f n out)
unfolding digits
digits-Lacks b zero n out d h = h
digits-Lacks b (suc f) n out d h = elim (Bool-cases (ltb n 10)) [
  | inl small ↦ rw small (ground arith, h)
  | inr large ↦ rw large (digits-Lacks b f (n / 10) _ d (omega arith, h))
]

-- The separator of the encoded forms does not occur in a print.
pub format_int-Lacks : (i : ℤ) → All (λ c. c ≢ b'|') (format_int i)
unfolding format_int
format_int-Lacks (pos n) = digits-Lacks b'|' (suc n) n [] (omega arith) tt
format_int-Lacks (negsuc n) =
    (omega arith, digits-Lacks b'|' (suc (suc n)) (suc n) [] (omega arith) tt)
