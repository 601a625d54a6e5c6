-- ===== src/Search/Handler.antt =====
-- handleSearchTweets, handleSearchUsers and parseLimit of
-- apps/search-service/internal/server/handler_search.go. A request is its query parameters and the
-- viewer of the token; the fields of a result are rendered as they are.
use twitter_microservices.Prelude.{
  ℕ, ◌≡◌, Bool, true, false, not, ◌&&◌, Option, none, some, List, [], ◌∷◌, Bytes, ◌=?◌,
  if◌then◌else◌, ltb, ℤ, pos, negsuc, length,
}
use twitter_microservices.Text.Decimal.{Parsed, parse_int}
use twitter_microservices.Shared.Errors.{Result, ok, non_empty, ◌>>=◌}
use twitter_microservices.Search.Docs.{Vector, TweetDoc}
use twitter_microservices.Search.Query.{build_tweet_query}
use twitter_microservices.Search.Service.{
  Answers, TweetResult, UserResult, TweetPage, mode_hybrid, normalise_mode, clamp_limit,
  decode_cursor, next_cursor_for, enrich_tweets, search_with, search_tweets, search_users,
}

abbrev limit_of : ℤ → ℤ
limit_of (pos n) = if ltb 0 n && not (ltb 100 n) then pos n else pos 20
limit_of (negsuc n) = pos 20

abbrev checked_limit : Parsed ℤ → ℤ
checked_limit p = elim p.error [ some e ↦ pos 20 | none ↦ limit_of p.value ]

-- parseLimit, on the text of the query parameter
unfoldable pub parse_limit : Bytes → ℤ
parse_limit [] = pos 20
parse_limit (c ∷ s) = checked_limit (parse_int 64 (c ∷ s))

-- The answer to a search of tweets, and whether it carries X-Search-Mode: keyword-fallback.
pub record TweetSearchResponse : Type 0 where
  pub tweets : List TweetResult
  pub next_cursor : Option Bytes
  pub says_fallback : Bool

pub record UserSearchResponse : Type 0 where
  pub users : List UserResult
  pub next_cursor : Option Bytes

module _ (a : Answers) where
  abbrev tweet_response : Bytes → TweetPage → TweetSearchResponse
  tweet_response mode p = record {
    tweets = p.results;
    next_cursor = p.next_cursor;
    says_fallback = not (p.effective_mode =? mode);
  }

  -- handleSearchTweets, at the query parameters q, mode, cursor and limit
  unfoldable pub handle_search_tweets :
      Bytes → Bytes → Bytes → Bytes → Bytes → Result TweetSearchResponse
  unfolding search_tweets parse_limit non_empty
  handle_search_tweets [] mode cursor limit viewer =
      ok (record { tweets = []; next_cursor = none; says_fallback = false })
  handle_search_tweets (c ∷ q) mode cursor limit viewer = do
    p ← search_tweets a (c ∷ q) mode viewer (non_empty cursor) (parse_limit limit)
    ok (tweet_response mode p)

  abbrev user_response : List UserResult × Option Bytes → UserSearchResponse
  user_response (users, next) = record { users = users; next_cursor = next }

  -- handleSearchUsers
  unfoldable pub handle_search_users : Bytes → Bytes → Bytes → Bytes → Result UserSearchResponse
  unfolding search_users parse_limit non_empty
  handle_search_users [] cursor limit viewer = ok (record { users = []; next_cursor = none })
  handle_search_users (c ∷ q) cursor limit viewer = do
    r ← search_users a (c ∷ q) viewer (non_empty cursor) (parse_limit limit)
    ok (user_response r)

  -- A search without a mode that was answered as the hybrid search, by the vector of the query, all
  -- the same says that it fell back to keywords.
  pub default_search_says_fallback :
      (c : ℕ) (q cursor limit viewer : Bytes) (v : Vector) (docs : List TweetDoc)
      → a.embed (c ∷ q) ≡ ok v
      → a.search_tweets (
          build_tweet_query
            (c ∷ q)
            v
            mode_hybrid
            (pos (decode_cursor (non_empty cursor)))
            (pos (clamp_limit (parse_limit limit))))
        ≡ ok docs
      → handle_search_tweets (c ∷ q) [] cursor limit viewer
        ≡ ok (record {
          tweets = enrich_tweets a docs viewer;
          next_cursor =
              next_cursor_for
                (decode_cursor (non_empty cursor))
                (clamp_limit (parse_limit limit))
                (length docs);
          says_fallback = true;
        })
  unfolding handle_search_tweets search_tweets search_with normalise_mode ◌=?◌
  default_search_says_fallback c q cursor limit viewer v docs e h = rw (e, h)
