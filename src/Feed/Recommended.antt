-- ===== src/Feed/Recommended.antt =====
-- The recommended feed: SetRecommendedFeed and RecommendedCacheExists of
-- apps/feed-service/internal/consumer/consumer.go, GetRecommendedFeed and rebuildRecommendedFeed of
-- apps/feed-service/internal/feed/service.go up to the enrichment. The scores are floating-point: the
-- order in which they put the candidates is a parameter.
pub mod Rebuilt
use twitter_microservices.Prelude.{
  ℕ, Bool, Option, none, some, List, [], ◌∷◌, ◌++◌, map, Bytes, codes, if◌then◌else◌, ltb,
}
use twitter_microservices.Shared.Errors.{Result, ok, err, ◌>>=◌}
use twitter_microservices.Shared.Redis.{Redis, Command, set, del, rpush}
use twitter_microservices.Feed.Entry.{encode_tweet_entry}
use twitter_microservices.Feed.Fanout.{or_zero}
use twitter_microservices.Feed.Keys.{recommended_key}
use twitter_microservices.Feed.Page.{get_recommended_feed, cursor_at}
use twitter_microservices.Feed.Signals.{recommended_ts_key}

abbrev pub recommended_ttl : ℕ
recommended_ttl = 900

-- RPUSH with several values pushes them one after the other.
abbrev pub rpush_commands : Bytes → List Bytes → List Command
rpush_commands key [] = []
rpush_commands key (id ∷ ids) = rpush key id ∷ rpush_commands key ids

abbrev pub recommended_commands : Bytes → List Bytes → List Command
recommended_commands user_id ids =
    del (recommended_key user_id)
    ∷ (rpush_commands (recommended_key user_id) ids
        ++ set (recommended_ts_key user_id) (codes "1") recommended_ttl ∷ [])

module _ (r : Redis) where
  open r use {State, exec, exists_key}

  -- SetRecommendedFeed
  unfoldable pub set_recommended_feed : Bytes → List Bytes → State → State
  set_recommended_feed user_id ids s = (exec (recommended_commands user_id ids) s).0

  -- RecommendedCacheExists
  unfoldable pub recommended_cache_exists : Bytes → State → Bool
  recommended_cache_exists user_id s = ltb 0 (or_zero (exists_key (recommended_ts_key user_id) s))

  -- rebuildRecommendedFeed, given GetRecentPopularTweets and the ranking; its error is logged.
  abbrev rebuild_recommended_feed :
      {T : Type 0} → Result (List T) → (List T → List Bytes) → Bytes → State → State
  rebuild_recommended_feed (err e) rank user_id s = s
  rebuild_recommended_feed (ok candidates) rank user_id s =
      set_recommended_feed user_id (rank candidates) s

  -- The rebuild of a first page.
  abbrev pub refreshed :
      {T : Type 0} → Result (List T) → (List T → List Bytes) → Bytes → Option Bytes → State → State
  refreshed popular rank user_id (some cursor) s = s
  refreshed popular rank user_id none s =
      if recommended_cache_exists user_id s
      then s
      else rebuild_recommended_feed popular rank user_id s

  -- The entries that GetRecommendedFeed enriches, and its cursor.
  abbrev pub entries_of : ℕ → List Bytes → List Bytes × Option Bytes
  entries_of limit ids = (map encode_tweet_entry ids, cursor_at ids limit)

  -- Service.GetRecommendedFeed before the enrichment, and what it leaves in Redis.
  unfoldable pub recommended_page :
      {T : Type 0}
      → Result (List T)
      → (List T → List Bytes)
      → Bytes
      → Option Bytes
      → ℕ
      → State
      → Result (List Bytes × Option Bytes) × State
  unfolding set_recommended_feed recommended_cache_exists get_recommended_feed cursor_at
      encode_tweet_entry
  recommended_page popular rank user_id cursor limit s =
      let t = refreshed popular rank user_id cursor s in
      ((do ids ← get_recommended_feed r user_id cursor limit t; ok (entries_of limit ids)), t)
