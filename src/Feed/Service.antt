-- ===== src/Feed/Service.antt =====
-- Service.GetFollowingFeed and what it calls, of apps/feed-service/internal/feed/service.go, up to the
-- enrichment (Feed/Enrich). The backend and the clients are parameters; a cache write is a result.
pub mod FirstPage
use mathlib.Core.List.{flatten}
use twitter_microservices.Prelude.{
  ℕ, Bool, true, false, Option, none, some, List, [], ◌∷◌, ◌++◌, map, Bytes, if◌then◌else◌, ltb,
  length, take,
}
use twitter_microservices.Shared.Errors.{Result, ok, err, ◌>>=◌}
use twitter_microservices.Feed.Entry.{encode_tweet_entry}
use twitter_microservices.Feed.Merge.{merge_dedupe}
use twitter_microservices.Feed.Page.{cursor_at}

-- The parts of feedBackend, TweetFetcher and UserClient that decide the entries of a page, as they
-- answer during one request, and encoding/json on a list of texts (`none` is an error, or null).
pub record Sources : Type 0 where
  pub get_cached_following_feed : Bytes → Option Bytes
  pub get_following_feed : Bytes → Option Bytes → ℕ → Result (List Bytes)
  pub is_celeb : Bytes → Bool
  pub get_following_ids : Bytes → Result (List Bytes)
  pub get_recent_tweets : Bytes → ℕ → Result (List Bytes)
  pub marshal : List Bytes → Option Bytes
  pub unmarshal_entries : Bytes → Option (List Bytes)
  -- the order in which the goroutines of fetchCelebFeedEntries append their results
  pub arrival : List (List Bytes) → List (List Bytes)

module _ (s : Sources) where
  open s use {
    get_cached_following_feed, get_following_feed, is_celeb, get_following_ids, get_recent_tweets,
    marshal, unmarshal_entries, arrival,
  }

  -- What one goroutine appends.
  abbrev celeb_tweets : Result (List Bytes) → List Bytes
  celeb_tweets (err e) = []
  celeb_tweets (ok ids) = map encode_tweet_entry ids

  abbrev celeb_results : List Bytes → List (List Bytes)
  celeb_results [] = []
  celeb_results (id ∷ ids) =
      if is_celeb id
      then celeb_tweets (get_recent_tweets id 20) ∷ celeb_results ids
      else celeb_results ids

  abbrev celeb_entries : Result (List Bytes) → List Bytes
  celeb_entries (err e) = []
  celeb_entries (ok ids) = flatten (arrival (celeb_results ids))

  -- fetchCelebFeedEntries
  unfoldable pub fetch_celeb_feed_entries : Bytes → List Bytes
  fetch_celeb_feed_entries viewer_id = celeb_entries (get_following_ids viewer_id)

  -- The cached entries of a first page.
  unfoldable pub cached_entries : Bytes → Option Bytes → Option (List Bytes)
  cached_entries user_id (some cursor) = none
  cached_entries user_id none = elim (get_cached_following_feed user_id) [
    | none ↦ none
    | some b ↦ unmarshal_entries b
  ]

  -- A first page that was not cached: the merged entries, and what is written to the cache.
  abbrev pub merged : List Bytes → List Bytes → List Bytes × Option Bytes
  merged raw celebs = (merge_dedupe raw celebs, marshal (merge_dedupe raw celebs))

  -- The entries of a page before the cap, and the cache write.
  abbrev fetch : Bytes → Option Bytes → Result (List Bytes) → Result (List Bytes × Option Bytes)
  fetch user_id cursor (err e) = err e
  fetch user_id none (ok raw) = ok (merged raw (fetch_celeb_feed_entries user_id))
  fetch user_id (some cursor) (ok raw) = ok (raw, none)

  abbrev cached_or :
      Option (List Bytes) → Result (List Bytes × Option Bytes) → Result (List Bytes × Option Bytes)
  cached_or none fetched = fetched
  cached_or (some entries) fetched = ok (entries, none)

  abbrev cap : ℕ → List Bytes → List Bytes
  cap limit entries = if ltb limit (length entries) then take limit entries else entries

  abbrev pub deliver :
      ℕ → List Bytes × Option Bytes → Result (List Bytes × Option Bytes × Option Bytes)
  deliver limit (entries, write) =
      ok (cap limit entries, cursor_at (cap limit entries) limit, write)

  -- GetFollowingFeed: the entries that are enriched, the cursor, and the cache write.
  unfoldable pub following_page :
      Bytes → Option Bytes → ℕ → Result (List Bytes × Option Bytes × Option Bytes)
  unfolding cached_entries
  following_page user_id cursor limit =
      cached_or (cached_entries user_id cursor)
        (fetch user_id cursor (get_following_feed user_id cursor limit))
      >>= deliver limit
