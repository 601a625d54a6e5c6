-- ===== src/Feed/Snapshots.antt =====
-- The snapshots of tweets and users in Redis, of apps/feed-service/internal/consumer/consumer.go:
-- SetTweetSnapshot, DeleteTweetSnapshot, UpdateAuthorInTweetSnapshots, lookupUserSnapshot and the reads.
pub mod Shown
pub mod Renamed
pub mod Deleted
use twitter_microservices.Prelude.{ℕ, Option, none, some, List, [], ◌∷◌, ◌++◌, Bytes, codes, ℤ}
use twitter_microservices.Text.{join}
use twitter_microservices.Text.Decimal.{format_int}
use twitter_microservices.Shared.Errors.{Result, ok, err}
use twitter_microservices.Shared.Redis.{Redis, Command, del, hset, sadd, srem}
use twitter_microservices.Feed.Enrich.{Hash, field}

abbrev pub tweet_snapshot_key : Bytes → Bytes
tweet_snapshot_key id = codes "tweet:snapshot:" ++ id

abbrev pub user_snapshot_key : Bytes → Bytes
user_snapshot_key id = codes "user:snapshot:" ++ id

abbrev pub tweet_counts_key : Bytes → Bytes
tweet_counts_key id = codes "tweet:counts:" ++ id

abbrev pub author_tweets_key : Bytes → Bytes
author_tweets_key id = codes "author_tweets:" ++ id

-- userSnapshotFields
pub record UserSnapshotFields : Type 0 where
  pub username : Bytes
  pub display_name : Bytes
  pub avatar_url : Bytes

abbrev user_snapshot_fields : Result Hash → UserSnapshotFields
user_snapshot_fields (err e) = record { username = []; display_name = []; avatar_url = [] }
user_snapshot_fields (ok h) = record {
  username = field h (codes "username");
  display_name = field h (codes "display_name");
  avatar_url = field h (codes "avatar_url");
}

abbrev pub tweet_type : Bytes → Bytes
tweet_type [] = codes "tweet"
tweet_type (c ∷ reply_to_id) = codes "reply"

-- The arguments of SetTweetSnapshot without the author's snapshot.
pub record TweetFields : Type 0 where
  pub author_id : Bytes
  pub body : Bytes
  pub reply_to_id : Bytes
  pub media_id : Bytes
  pub media_url : Bytes
  pub hashtags : List Bytes
  pub created_at : ℤ

unfoldable pub snapshot_fields : TweetFields → UserSnapshotFields → List (Bytes × Bytes)
unfolding format_int
snapshot_fields t author =
    (codes "author_id", t.author_id)
    ∷ (codes "body", t.body)
    ∷ (codes "type", tweet_type t.reply_to_id)
    ∷ (codes "reply_to_id", t.reply_to_id)
    ∷ (codes "media_id", t.media_id)
    ∷ (codes "media_url", t.media_url)
    ∷ (codes "hashtags", join b',' t.hashtags)
    ∷ (codes "created_at", format_int t.created_at)
    ∷ (codes "author_username", author.username)
    ∷ (codes "author_display_name", author.display_name)
    ∷ (codes "author_avatar_url", author.avatar_url)
    ∷ []

abbrev pub snapshot_commands : Bytes → TweetFields → UserSnapshotFields → List Command
snapshot_commands tweet_id t author =
    hset (tweet_snapshot_key tweet_id) (snapshot_fields t author)
    ∷ sadd (author_tweets_key t.author_id) tweet_id
    ∷ []

-- The reverse index, where the author is known.
abbrev pub forget : Bytes → Result Bytes → List Command
forget tweet_id (err e) = []
forget tweet_id (ok []) = []
forget tweet_id (ok (c ∷ author_id)) = srem (author_tweets_key (c ∷ author_id)) tweet_id ∷ []

abbrev pub author_fields : UserSnapshotFields → List (Bytes × Bytes)
author_fields a =
    (codes "author_username", a.username)
    ∷ (codes "author_display_name", a.display_name)
    ∷ (codes "author_avatar_url", a.avatar_url)
    ∷ []

abbrev pub author_commands : UserSnapshotFields → List Bytes → List Command
author_commands a [] = []
author_commands a (id ∷ ids) =
    hset (tweet_snapshot_key id) (author_fields a) ∷ author_commands a ids

-- A hash without fields is a miss.
abbrev pub or_miss : Result Hash → Option Hash
or_miss (err e) = none
or_miss (ok []) = none
or_miss (ok (x ∷ h)) = some (x ∷ h)

abbrev with_fields : Bytes → Option Hash → List (Bytes × Hash) → List (Bytes × Hash)
with_fields id none rest = rest
with_fields id (some h) rest = (id, h) ∷ rest

module _ (r : Redis) where
  open r use {State, exec, hget, hgetall, smembers}

  -- lookupUserSnapshot
  unfoldable pub lookup_user_snapshot : Bytes → State → UserSnapshotFields
  unfolding field
  lookup_user_snapshot user_id s = user_snapshot_fields (hgetall (user_snapshot_key user_id) s)

  -- SetTweetSnapshot
  unfoldable pub set_tweet_snapshot : Bytes → TweetFields → UserSnapshotFields → State → State
  unfolding snapshot_fields
  set_tweet_snapshot tweet_id t author s = (exec (snapshot_commands tweet_id t author) s).0

  -- DeleteTweetSnapshot
  unfoldable pub delete_tweet_snapshot : Bytes → State → State
  delete_tweet_snapshot tweet_id s =
      let key = tweet_snapshot_key tweet_id in
      (exec (del key ∷ forget tweet_id (hget key (codes "author_id") s)) s).0

  abbrev pub update_all : UserSnapshotFields → Result (List Bytes) → State → State
  update_all a (err e) s = s
  update_all a (ok []) s = s
  update_all a (ok (id ∷ ids)) s = (exec (author_commands a (id ∷ ids)) s).0

  -- UpdateAuthorInTweetSnapshots
  unfoldable pub update_author_in_tweet_snapshots : Bytes → UserSnapshotFields → State → State
  update_author_in_tweet_snapshots user_id a s =
      update_all a (smembers (author_tweets_key user_id) s) s

  -- GetTweetSnapshot
  unfoldable pub get_tweet_snapshot : Bytes → State → Option Hash
  get_tweet_snapshot id s = or_miss (hgetall (tweet_snapshot_key id) s)

  -- GetUserSnapshot
  unfoldable pub get_user_snapshot : Bytes → State → Option Hash
  get_user_snapshot id s = or_miss (hgetall (user_snapshot_key id) s)

  -- PipelineTweetSnapshots, PipelineUserSnapshots and PipelineTweetCounts, by the key of an ID
  unfoldable pub pipeline_hashes : (Bytes → Bytes) → List Bytes → State → List (Bytes × Hash)
  pipeline_hashes key [] s = []
  pipeline_hashes key (id ∷ ids) s =
      with_fields id (or_miss (hgetall (key id) s)) (pipeline_hashes key ids s)
