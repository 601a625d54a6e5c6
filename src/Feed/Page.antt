-- ===== src/Feed/Page.antt =====
-- Cursor pagination over a Redis list: Consumer.GetFollowingFeed and Consumer.GetRecommendedFeed of
-- apps/feed-service/internal/consumer/consumer.go, and cursorAt of
-- apps/feed-service/internal/feed/service.go. A limit is a natural number: the handlers pass 1 to 100.
pub mod Walk
use twitter_microservices.Prelude.{
  ℕ, zero, suc, ◌+◌, ◌-◌, Bool, Option, none, some, List, [], ◌∷◌, Bytes, ◌=?◌, if◌then◌else◌, ltb,
  leb, length, take, drop, get_elem?, pos, negsuc,
}
use twitter_microservices.Shared.Errors.{Result, ok, err, ◌>>=◌}
use twitter_microservices.Shared.Redis.{Redis}
use twitter_microservices.Feed.Keys.{following_key, following_limit, recommended_key}

-- The loop that looks for the cursor: the position of the first equal entry.
unfoldable pub index_of : Bytes → List Bytes → Option ℕ
index_of c [] = none
index_of c (x ∷ xs) =
    let rest = index_of c xs in
    if x =? c then some 0 else elim rest [ none ↦ none | some i ↦ some (suc i) ]

-- ids[start:], cut to the limit.
unfoldable pub cut_page : List Bytes → ℕ → ℕ → List Bytes
cut_page ids start limit =
    if leb (length ids) start
    then []
    else if ltb limit (length (drop start ids))
    then take limit (drop start ids)
    else drop start ids

-- What both accessors do with the list that they read.
unfoldable pub page : List Bytes → Option Bytes → ℕ → List Bytes
unfolding cut_page
page ids none limit = cut_page ids 0 limit
page ids (some cursor) limit = elim (index_of cursor ids) [
  | none ↦ []
  | some i ↦ cut_page ids (i + 1) limit
]

module _ (r : Redis) where
  open r use {State, lrange}

  -- Consumer.GetFollowingFeed
  unfoldable pub get_following_feed : Bytes → Option Bytes → ℕ → State → Result (List Bytes)
  get_following_feed user_id cursor limit s = do
    ids ← lrange (following_key user_id) 0 (pos (following_limit - 1)) s
    ok (page ids cursor limit)

  -- Consumer.GetRecommendedFeed
  unfoldable pub get_recommended_feed : Bytes → Option Bytes → ℕ → State → Result (List Bytes)
  get_recommended_feed user_id cursor limit s = do
    ids ← lrange (recommended_key user_id) 0 (negsuc 0) s
    ok (page ids cursor limit)

-- cursorAt, for a positive limit: a full page gives its last entry.
unfoldable pub cursor_at : List Bytes → ℕ → Option Bytes
cursor_at source limit = if ltb (length source) limit then none else get_elem? source (limit - 1)
