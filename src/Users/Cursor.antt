-- ===== src/Users/Cursor.antt =====
-- EncodeFollowCursor and decodeFollowCursor of apps/user-service/internal/user/service.go. A time is its
-- Unix microseconds, the resolution of both the cursor and the database.
use twitter_microservices.Prelude.{◌≡◌, Option, none, some, [], ◌∷◌, ◌++◌, Bytes, codes, ℤ, IsInt64}
use twitter_microservices.Text.{split_2, split_2-part}
use twitter_microservices.Text.Decimal.{Parsed, parse_int, format_int}
use twitter_microservices.Text.Decimal.RoundTrip.{parse_int-format_int, format_int-Lacks}
use twitter_microservices.Shared.Errors.{AppError, app, Result, ok, err}

-- ID alongside the timestamp.
unfoldable pub encode_follow_cursor : ℤ → Bytes → Bytes
encode_follow_cursor followed_at user_id = format_int followed_at ++ (b'|' ∷ user_id)

abbrev pub invalid_cursor : AppError
invalid_cursor = record {
  status = 400;
  code = codes "INVALID_CURSOR";
  message = codes "invalid cursor";
}

abbrev with_time : Parsed ℤ → Bytes → Result (Option (ℤ × Bytes))
with_time p id = elim p.error [ some e ↦ err (app invalid_cursor) | none ↦ ok (some (p.value, id)) ]

-- `none` inside is a page from the start.
unfoldable pub decode_follow_cursor : Option Bytes → Result (Option (ℤ × Bytes))
decode_follow_cursor none = ok none
decode_follow_cursor (some []) = ok none
decode_follow_cursor (some (c ∷ s)) = elim (split_2 b'|' (c ∷ s)) [
  | none ↦ err (app invalid_cursor)
  | some (micros, id) ↦ with_time (parse_int 64 micros) id
]

decode_parts :
    (raw micros id : Bytes) (at : ℤ)
    → split_2 b'|' raw ≡ some (micros, id)
    → parse_int 64 micros ≡ record { value = at; error = none }
    → decode_follow_cursor (some raw) ≡ ok (some (at, id))
decode_parts [] micros id at e p = unfold split_2 in cc
decode_parts (c ∷ s) micros id at e p =
    unfold decode_follow_cursor in rw (e, decode_follow_cursor) (rw p)

-- A follow cursor gives back the time and the ID that it was made of, for every int64 time and
-- every ID.
pub decode-encode_follow_cursor :
    (at : ℤ) (id : Bytes)
    → IsInt64 at
    → decode_follow_cursor (some (encode_follow_cursor at id)) ≡ ok (some (at, id))
unfolding encode_follow_cursor
decode-encode_follow_cursor at id h =
    decode_parts _ (format_int at) id at
      (split_2-part b'|' (format_int at) id (format_int-Lacks at)) (parse_int-format_int at h)
