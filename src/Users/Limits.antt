-- ===== src/Users/Limits.antt =====
-- clampLimit of apps/user-service/internal/user/service.go and queryLimit of
-- apps/user-service/internal/server/handler_users.go.
use twitter_microservices.Prelude.{
  ℕ, ◌≤◌, ◌<◌, ◌≡◌, ◌^◌, ap, ◌∙◌, Bool-cases, inl, inr, none, some, [], ◌∷◌, Bytes, if◌then◌else◌,
  arith, ℤ, pos, negsuc, ltb,
}
use twitter_microservices.Text.Decimal.{Parsed, parse_int, format_int}
use twitter_microservices.Text.Decimal.RoundTrip.{parse_int-format_int}
use twitter_microservices.Shared.Ints.{to_int32, is_positive, at_most}

abbrev pub default_list_limit : ℕ
default_list_limit = 20

abbrev pub max_list_limit : ℕ
max_list_limit = 100

abbrev pub default_suggestion_limit : ℕ
default_suggestion_limit = 10

abbrev pub max_suggestion_limit : ℕ
max_suggestion_limit = 30

-- clampLimit
unfoldable pub clamp_limit : ℤ → ℕ → ℕ → ℤ
clamp_limit limit def max =
    if is_positive limit
    then (if at_most limit max then to_int32 limit else to_int32 (pos max))
    else to_int32 (pos def)

abbrev non_negative : ℤ → ℤ
non_negative (pos n) = pos n
non_negative (negsuc n) = pos 0

abbrev parsed_limit : Parsed ℤ → ℤ
parsed_limit p = elim p.error [ some e ↦ pos 0 | none ↦ non_negative p.value ]

-- queryLimit, on the text of the query parameter
unfoldable pub query_limit : Bytes → ℤ
query_limit [] = pos 0
query_limit (c ∷ s) = parsed_limit (parse_int 64 (c ∷ s))

to_int32_small : (n : ℕ) → n < 2 ^ 31 → to_int32 (pos n) ≡ pos n
to_int32_small n h = ground arith

-- Whatever limit is asked for, the page limit is positive and at most the maximum, for a positive
-- default that is at most the maximum and a maximum below 2^31.
pub clamp_limit_range :
    (limit : ℤ) (def max : ℕ)
    → 0 < def
    → def ≤ max
    → max < 2 ^ 31
    → (k : ℕ) × (clamp_limit limit def max ≡ pos k) × (0 < k) × (k ≤ max)
unfolding clamp_limit
clamp_limit_range (negsuc n) def max h₁ h₂ h₃ = (def, to_int32_small def (omega arith), h₁, h₂)
clamp_limit_range (pos n) def max h₁ h₂ h₃ = elim (Bool-cases (ltb 0 n)) [
  | inr zero ↦ (def, rw (zero, clamp_limit) (to_int32_small def (omega arith)), h₁, h₂)
  | inl some_limit ↦ elim (Bool-cases (ltb max n)) [
    | inl large ↦ (
      max,
      rw (some_limit, clamp_limit) (rw large (to_int32_small max h₃)),
      omega arith,
      omega arith,
    )
    | inr fits ↦ (
      n,
      rw (some_limit, clamp_limit) (rw fits (to_int32_small n (ground arith))),
      ground arith,
      ground arith,
    )
  ]
]

query_limit_parsed :
    (s : Bytes) (m : ℕ)
    → parse_int 64 s ≡ record { value = pos m; error = none }
    → query_limit s ≡ pos m
unfolding query_limit
query_limit_parsed [] m e = unfold parse_int in cc
query_limit_parsed (c ∷ s) m e = rw (e, query_limit)

-- A limit that is in range is passed on as it is, if it is written in decimal in the query.
pub clamp_limit-query_limit :
    (n def max : ℕ)
    → 0 < n
    → n ≤ max
    → max < 2 ^ 31
    → clamp_limit (query_limit (format_int (pos n))) def max ≡ pos n
clamp_limit-query_limit n def max h₁ h₂ h₃ =
    ap (λ t. clamp_limit t def max)
      (query_limit_parsed _ n (parse_int-format_int (pos n) (omega arith)))
    ∙ (unfold clamp_limit in ground (arith, to_int32_small n (omega arith)))
