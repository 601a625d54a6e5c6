-- ===== src/Search/Enrich.antt =====
-- apps/search-service/internal/enrich/enrich.go. A pipeline is the answers to its HGETALLs.
use twitter_microservices.Prelude.{none, some, List, [], ◌∷◌, ◌++◌, Bytes, codes, ℤ, pos}
use twitter_microservices.Text.Decimal.{Parsed, parse_int}
use twitter_microservices.Shared.Errors.{Result, ok, err}
use twitter_microservices.Feed.Enrich.{Hash, field}

-- search.AuthorSnapshot
pub record AuthorSnapshot : Type 0 where
  pub username : Bytes
  pub display_name : Bytes
  pub avatar_url : Bytes

-- search.TweetCounts
pub record TweetCounts : Type 0 where
  pub like_count : ℤ
  pub retweet_count : ℤ
  pub reply_count : ℤ

abbrev value_or_zero : Parsed ℤ → ℤ
value_or_zero p = elim p.error [ none ↦ p.value | some e ↦ pos 0 ]

-- parseInt32: here an error gives 0.
unfoldable pub parse_int32 : Bytes → ℤ
parse_int32 [] = pos 0
parse_int32 (c ∷ s) = value_or_zero (parse_int 32 (c ∷ s))

abbrev author_snapshot : Hash → AuthorSnapshot
author_snapshot f = record {
  username = field f (codes "username");
  display_name = field f (codes "display_name");
  avatar_url = field f (codes "avatar_url");
}

abbrev tweet_counts : Hash → TweetCounts
tweet_counts f = record {
  like_count = parse_int32 (field f (codes "like_count"));
  retweet_count = parse_int32 (field f (codes "retweet_count"));
  reply_count = parse_int32 (field f (codes "reply_count"));
}

abbrev pub user_snapshot_key : Bytes → Bytes
user_snapshot_key id = codes "user:snapshot:" ++ id

abbrev pub tweet_counts_key : Bytes → Bytes
tweet_counts_key id = codes "tweet:counts:" ++ id

-- An entry where the read gave fields.
abbrev with_entry :
    {A : Type 0} → Bytes → (Hash → A) → Result Hash → List (Bytes × A) → List (Bytes × A)
with_entry id f (err e) rest = rest
with_entry id f (ok []) rest = rest
with_entry id f (ok (x ∷ h)) rest = (id, f (x ∷ h)) ∷ rest

module _ (hgetall : Bytes → Result Hash) where
  -- BatchAuthorSnapshots
  unfoldable pub batch_author_snapshots : List Bytes → List (Bytes × AuthorSnapshot)
  unfolding field
  batch_author_snapshots [] = []
  batch_author_snapshots (id ∷ ids) =
      with_entry id author_snapshot (hgetall (user_snapshot_key id)) (batch_author_snapshots ids)

  -- BatchTweetCounts
  unfoldable pub batch_tweet_counts : List Bytes → List (Bytes × TweetCounts)
  unfolding field parse_int32
  batch_tweet_counts [] = []
  batch_tweet_counts (id ∷ ids) =
      with_entry id tweet_counts (hgetall (tweet_counts_key id)) (batch_tweet_counts ids)
