-- ===== src/Tweets/Limits.antt =====
-- parseLimit of apps/tweet-service/internal/server/handler_tweets.go, and the profile cursors of
-- apps/tweet-service/internal/tweet/service.go.
use twitter_microservices.Prelude.{
  ℕ, ◌-◌, ◌≤◌, ◌<◌, ◌≡◌, ◌^◌, ◌∙◌, ◌&&◌, Option, none, some, [], ◌∷◌, ◌++◌, Bytes, codes,
  if◌then◌else◌, arith, ℤ, pos, negsuc,
}
use twitter_microservices.Text.{split_2}
use twitter_microservices.Text.Decimal.{Parsed, parse_int, format_int}
use twitter_microservices.Text.Decimal.RoundTrip.{parse_int-format_int}
use twitter_microservices.Shared.Errors.{AppError, app, Result, ok, err}
use twitter_microservices.Shared.Ints.{to_int32, is_positive, at_most}

abbrev pub default_page_limit : ℕ
default_page_limit = 20

abbrev pub max_page_limit : ℕ
max_page_limit = 100

abbrev limit_of : ℤ → ℤ
limit_of n =
    if is_positive n && at_most (to_int32 n) max_page_limit
    then to_int32 n
    else pos default_page_limit

abbrev pub checked_limit : Parsed ℤ → ℤ
checked_limit p = elim p.error [ some e ↦ pos default_page_limit | none ↦ limit_of p.value ]

-- parseLimit, on the text of the query parameter
unfoldable pub parse_limit : Bytes → ℤ
parse_limit [] = pos default_page_limit
parse_limit (c ∷ s) = checked_limit (parse_int 64 (c ∷ s))

checked_parse :
    (s : Bytes) (n : ℕ)
    → parse_int 64 s ≡ record { value = pos n; error = none }
    → parse_limit s ≡ limit_of (pos n)
unfolding parse_limit
checked_parse [] n e = unfold parse_int in cc
checked_parse (c ∷ s) n e = rw (e, parse_limit)

-- A page limit from 2^31 to 2^32 - 1 passes the test against the maximum and comes out negative.
pub parse_limit_negative :
    (n : ℕ) → 2 ^ 31 ≤ n → n < 2 ^ 32 → parse_limit (format_int (pos n)) ≡ negsuc (2 ^ 32 - 1 - n)
parse_limit_negative n low high =
    checked_parse _ n (parse_int-format_int (pos n) (omega arith)) ∙ ground arith

-- EncodeProfileCursor
unfoldable pub encode_profile_cursor : ℤ → Bytes → Bytes
encode_profile_cursor sort_at item_id = format_int sort_at ++ (b'|' ∷ item_id)

abbrev invalid_cursor : AppError
invalid_cursor = record {
  status = 400;
  code = codes "INVALID_CURSOR";
  message = codes "invalid cursor";
}

abbrev with_time : Parsed ℤ → Bytes → Result (Option (ℤ × Bytes))
with_time p id = elim p.error [ some e ↦ err (app invalid_cursor) | none ↦ ok (some (p.value, id)) ]

-- decodeProfileCursor; `none` inside is a page from the start.
unfoldable pub decode_profile_cursor : Option Bytes → Result (Option (ℤ × Bytes))
decode_profile_cursor none = ok none
decode_profile_cursor (some []) = ok none
decode_profile_cursor (some (c ∷ s)) = elim (split_2 b'|' (c ∷ s)) [
  | none ↦ err (app invalid_cursor)
  | some (micros, id) ↦ with_time (parse_int 64 micros) id
]
