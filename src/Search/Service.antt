-- ===== src/Search/Service.antt =====
-- apps/search-service/internal/search/service.go. The OpenSearch server, the embedding client, Redis
-- and the gRPC clients are parameters: what they answer during the request.
pub mod Pages
pub mod Fallback
use twitter_microservices.Prelude.{
  ℕ, ◌+◌, Bool, true, false, not, ◌&&◌, ◌||◌, Option, none, some, List, [], ◌∷◌, Bytes, codes, ◌=?◌,
  if◌then◌else◌, map, length, ltb, ℤ, pos, negsuc,
}
use twitter_microservices.Text.Decimal.{Parsed, parse_int, format_int}
use twitter_microservices.Shared.Errors.{Result, ok, err, ◌>>=◌}
use twitter_microservices.Shared.Ints.{is_positive, at_most}
use twitter_microservices.Feed.Enrich.{Hash, at_key}
use twitter_microservices.Feed.Ids.{mem?}
use twitter_microservices.Search.Docs.{Vector, TweetDoc, UserDoc}
use twitter_microservices.Search.Enrich.{
  AuthorSnapshot, TweetCounts, batch_author_snapshots, batch_tweet_counts,
}
use twitter_microservices.Search.Query.{TweetQuery, UserQuery, build_tweet_query, build_user_query}

abbrev pub mode_keyword : Bytes
mode_keyword = codes "keyword"

abbrev pub mode_semantic : Bytes
mode_semantic = codes "semantic"

abbrev pub mode_hybrid : Bytes
mode_hybrid = codes "hybrid"

-- normaliseMode
unfoldable pub normalise_mode : Bytes → Bytes
normalise_mode mode = if mode =? mode_keyword || mode =? mode_semantic then mode else mode_hybrid

-- clampLimit: above the maximum it gives the default.
unfoldable pub clamp_limit : ℤ → ℕ
clamp_limit (pos n) = if ltb 0 n && not (ltb 100 n) then n else 20
clamp_limit (negsuc n) = 20

abbrev non_negative : ℤ → ℕ
non_negative (pos n) = n
non_negative (negsuc n) = 0

abbrev offset_of : Parsed ℤ → ℕ
offset_of p = elim p.error [ some e ↦ 0 | none ↦ non_negative p.value ]

-- decodeCursor
unfoldable pub decode_cursor : Option Bytes → ℕ
decode_cursor none = 0
decode_cursor (some c) = offset_of (parse_int 64 c)

-- nextCursorFor
unfoldable pub next_cursor_for : ℕ → ℕ → ℕ → Option Bytes
next_cursor_for from limit got =
    if ltb got limit then none else some (format_int (pos (from + limit)))

pub record TweetInteraction : Type 0 where
  pub is_liked : Bool
  pub is_retweeted : Bool

pub record TweetResult : Type 0 where
  pub doc : TweetDoc
  pub author : AuthorSnapshot
  pub counts : TweetCounts
  pub is_liked : Bool
  pub is_retweeted : Bool

pub record UserResult : Type 0 where
  pub doc : UserDoc
  pub follower_count : ℤ
  pub is_following : Bool

-- What the other parties answer.
pub record Answers : Type 0 where
  pub embed : Bytes → Result Vector
  pub search_tweets : TweetQuery → Result (List TweetDoc)
  pub search_users : UserQuery → Result (List UserDoc)
  pub hgetall : Bytes → Result Hash
  pub get_interactions : Bytes → List Bytes → Result (List (Bytes × TweetInteraction))
  pub batch_get_follower_counts : List Bytes → Result (List (Bytes × ℤ))
  pub get_follow_state : Bytes → List Bytes → Result (List (Bytes × Bool))

-- A map after an error that is logged is empty.
abbrev or_empty : {A : Type 0} → Result (List A) → List A
or_empty (ok m) = m
or_empty (err e) = []

-- No call without a viewer.
abbrev for_viewer : {A : Type 0} → Bytes → Result (List A) → List A
for_viewer [] r = []
for_viewer (c ∷ viewer) r = or_empty r

-- The loop over the documents: the distinct author IDs that are not empty, in their order.
abbrev author_ids : List Bytes → List TweetDoc → List Bytes
author_ids seen [] = []
author_ids seen (d ∷ ds) = elim (mem? d.author_id seen || d.author_id =? []) [
  | true ↦ author_ids seen ds
  | false ↦ d.author_id ∷ author_ids (d.author_id ∷ seen) ds
]

abbrev tweet_id : TweetDoc → Bytes
tweet_id d = d.id

abbrev pub no_author : AuthorSnapshot
no_author = record { username = []; display_name = []; avatar_url = [] }

abbrev author_or_none : Option AuthorSnapshot → AuthorSnapshot
author_or_none none = no_author
author_or_none (some a) = a

-- The counts of the document where Redis has none.
abbrev counts_or_doc : TweetDoc → Option TweetCounts → TweetCounts
counts_or_doc d none = record {
  like_count = d.like_count;
  retweet_count = d.retweet_count;
  reply_count = pos 0;
}
counts_or_doc d (some c) = c

abbrev liked : Option TweetInteraction → Bool
liked none = false
liked (some i) = i.is_liked

abbrev retweeted : Option TweetInteraction → Bool
retweeted none = false
retweeted (some i) = i.is_retweeted

abbrev tweet_result :
    List (Bytes × AuthorSnapshot)
    → List (Bytes × TweetCounts)
    → List (Bytes × TweetInteraction)
    → TweetDoc
    → TweetResult
tweet_result authors counts interactions d = record {
  doc = d;
  author = author_or_none (at_key authors d.author_id);
  counts = counts_or_doc d (at_key counts d.id);
  is_liked = liked (at_key interactions d.id);
  is_retweeted = retweeted (at_key interactions d.id);
}

abbrev number_or_zero : Option ℤ → ℤ
number_or_zero none = pos 0
number_or_zero (some n) = n

abbrev is_true : Option Bool → Bool
is_true none = false
is_true (some b) = b

abbrev user_id : UserDoc → Bytes
user_id d = d.id

abbrev user_result : List (Bytes × ℤ) → List (Bytes × Bool) → UserDoc → UserResult
user_result counts follow_state d = record {
  doc = d;
  follower_count = number_or_zero (at_key counts d.id);
  is_following = is_true (at_key follow_state d.id);
}

-- What SearchTweets returns without an error.
pub record TweetPage : Type 0 where
  pub results : List TweetResult
  pub next_cursor : Option Bytes
  pub effective_mode : Bytes

module _ (a : Answers) where
  -- enrichTweets
  unfoldable pub enrich_tweets : List TweetDoc → Bytes → List TweetResult
  unfolding batch_author_snapshots batch_tweet_counts at_key
  enrich_tweets docs viewer =
      map
        (tweet_result (batch_author_snapshots a.hgetall (author_ids [] docs))
          (batch_tweet_counts a.hgetall (map tweet_id docs))
          (for_viewer viewer (a.get_interactions viewer (map tweet_id docs))))
        docs

  abbrev pub needs_vector : Bytes → Bool
  needs_vector mode = mode =? mode_semantic || mode =? mode_hybrid

  -- The vector and the effective mode.
  abbrev pub embedded : Bytes → Result Vector → Vector × Bytes
  embedded mode (ok v) = (v, mode)
  embedded mode (err e) = ([], mode_keyword)

  abbrev pub vector_and_mode : Bytes → Bytes → Vector × Bytes
  vector_and_mode query mode =
      if needs_vector mode then embedded mode (a.embed query) else ([], mode)

  abbrev pub tweet_page : ℕ → ℕ → Bytes → Bytes → List TweetDoc → TweetPage
  tweet_page from limit viewer effective_mode docs = record {
    results = enrich_tweets docs viewer;
    next_cursor = next_cursor_for from limit (length docs);
    effective_mode = effective_mode;
  }

  -- The rest of SearchTweets, given the vector and the effective mode.
  unfoldable pub search_with : Bytes → Bytes → ℕ → ℕ → Vector × Bytes → Result TweetPage
  unfolding enrich_tweets next_cursor_for build_tweet_query
  search_with query viewer from limit (vector, effective_mode) = do
    docs ← a.search_tweets (build_tweet_query query vector effective_mode (pos from) (pos limit))
    ok (tweet_page from limit viewer effective_mode docs)

  -- SearchTweets
  unfoldable pub search_tweets : Bytes → Bytes → Bytes → Option Bytes → ℤ → Result TweetPage
  unfolding search_with clamp_limit decode_cursor normalise_mode
  search_tweets query mode viewer cursor limit =
      search_with query viewer (decode_cursor cursor) (clamp_limit limit)
        (vector_and_mode query (normalise_mode mode))

  -- enrichUsers
  unfoldable pub enrich_users : List UserDoc → Bytes → List UserResult
  unfolding at_key
  enrich_users docs viewer =
      map
        (user_result (or_empty (a.batch_get_follower_counts (map user_id docs)))
          (for_viewer viewer (a.get_follow_state viewer (map user_id docs))))
        docs

  -- SearchUsers
  unfoldable pub search_users :
      Bytes → Bytes → Option Bytes → ℤ → Result (List UserResult × Option Bytes)
  unfolding enrich_users next_cursor_for clamp_limit decode_cursor
  search_users query viewer cursor limit =
      let from = decode_cursor cursor in
      let size = clamp_limit limit in
      (do
        docs ← a.search_users (build_user_query query (pos from) (pos size))
        ok (enrich_users docs viewer, next_cursor_for from size (length docs)))
