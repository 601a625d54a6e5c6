-- ===== src/Feed/Fanout.antt =====
-- The writes to the `following:*` lists of apps/feed-service/internal/consumer/consumer.go: FanOut,
-- RemoveRetweetFromFollowers and BackfillFollowingFeed. The Redis client and the gRPC clients of the
-- user and the tweet service are parameters; logging is left out.
pub mod Lists
pub mod Delivery
use twitter_microservices.Prelude.{
  ℕ, suc, ◌-◌, Bool, true, false, Option, none, some, List, [], ◌∷◌, ◌++◌, Bytes, codes,
  if◌then◌else◌, ltb, leb, ◌==◌, reverse, ℤ, pos, negsuc,
}
use twitter_microservices.Text.{has_prefix}
use twitter_microservices.Shared.Errors.{Result, ok, err}
use twitter_microservices.Shared.Redis.{Redis, Command, set, lpush, ltrim, lrem, expire}
use twitter_microservices.Feed.Entry.{encode_tweet_entry, feed_entry_retweet}
use twitter_microservices.Feed.Keys.{
  following_key, following_limit, following_ttl, celeb_key, celeb_threshold, celeb_flag_ttl,
  user_counts_key, backfill_limit,
}

-- The pipeline of FanOut.
unfoldable pub push_commands : Bytes → List Bytes → List Command
push_commands entry [] = []
push_commands entry (f ∷ fs) =
    lpush (following_key f) entry
    ∷ ltrim (following_key f) 0 (following_limit - 1)
    ∷ expire (following_key f) following_ttl
    ∷ push_commands entry fs

-- A count read where an error counts as zero: `n, _ := … .Result()`.
abbrev pub or_zero : Result ℕ → ℕ
or_zero (ok n) = n
or_zero (err e) = 0

-- `count >= celebThreshold`
abbrev pub reaches_threshold : ℤ → Bool
reaches_threshold (pos n) = leb celeb_threshold n
reaches_threshold (negsuc n) = false

-- The LREM commands for the entries with the prefix.
unfoldable pub lrem_commands : Bytes → Bytes → List Bytes → List Command
lrem_commands key prefix [] = []
lrem_commands key prefix (raw ∷ raws) =
    if has_prefix raw prefix
    then lrem key 1 raw ∷ lrem_commands key prefix raws
    else lrem_commands key prefix raws

abbrev pub retweet_prefix : Bytes → Bytes
retweet_prefix retweet_id = feed_entry_retweet ++ (b'|' ∷ (retweet_id ++ b'|' ∷ []))

-- The loop of BackfillFollowingFeed over the IDs from the last to the first.
unfoldable pub lpush_commands : Bytes → List Bytes → List Command
lpush_commands key [] = []
lpush_commands key (id ∷ ids) = lpush key (encode_tweet_entry id) ∷ lpush_commands key ids

unfoldable pub backfill_commands : Bytes → List Bytes → List Command
unfolding lpush_commands
backfill_commands key ids =
    lpush_commands key (reverse ids)
    ++ (ltrim key 0 (following_limit - 1) ∷ expire key following_ttl ∷ [])

-- One follower's part of the pipeline of RemoveRetweetFromFollowers.
abbrev pub remove_one : Bytes → Bytes → Result (List Bytes) → List Command
remove_one key prefix (err e) = []
remove_one key prefix (ok raws) = lrem_commands key prefix raws

module _ (r : Redis) where
  open r use {State, exec, exists_key, hget_int64, lrange}

  -- FanOut behind the celebrity test.
  unfoldable pub push_to_followers : Result (List Bytes) → Bytes → State → State
  push_to_followers (err e) entry s = s
  push_to_followers (ok follower_ids) entry s = (exec (push_commands entry follower_ids) s).0

  -- FanOut; `get_follower_ids` is the gRPC call.
  unfoldable pub fan_out : (Bytes → Result (List Bytes)) → Bytes → Bytes → State → State
  unfolding push_to_followers
  fan_out get_follower_ids entry author_id s =
      if or_zero (exists_key (celeb_key author_id) s) == 0
      then (if reaches_threshold
            (hget_int64 (user_counts_key author_id) (codes "follower_count") s).0
          then (exec (set (celeb_key author_id) (codes "1") celeb_flag_ttl ∷ []) s).0
          else push_to_followers (get_follower_ids author_id) entry s)
      else s

  -- IsCeleb
  unfoldable pub is_celeb : Bytes → State → Bool
  is_celeb user_id s = ltb 0 (or_zero (exists_key (celeb_key user_id) s))

  unfoldable pub remove_commands : Bytes → List Bytes → State → List Command
  remove_commands prefix [] s = []
  remove_commands prefix (f ∷ fs) s =
      remove_one (following_key f) prefix (lrange (following_key f) 0 (pos (following_limit - 1)) s)
      ++ remove_commands prefix fs s

  abbrev remove_from : Result (List Bytes) → Bytes → State → State
  remove_from (err e) prefix s = s
  remove_from (ok []) prefix s = s
  remove_from (ok (f ∷ fs)) prefix s = (exec (remove_commands prefix (f ∷ fs) s) s).0

  -- RemoveRetweetFromFollowers
  unfoldable pub remove_retweet_from_followers :
      (Bytes → Result (List Bytes)) → Bytes → Bytes → State → State
  remove_retweet_from_followers get_follower_ids retweeter_id retweet_id s =
      remove_from (get_follower_ids retweeter_id) (retweet_prefix retweet_id) s

  abbrev backfill_with : Result (List Bytes) → Bytes → State → State
  backfill_with (err e) follower_id s = s
  backfill_with (ok []) follower_id s = s
  backfill_with (ok (id ∷ ids)) follower_id s =
      (exec (backfill_commands (following_key follower_id) (id ∷ ids)) s).0

  -- BackfillFollowingFeed; `none` is a consumer without a tweet client.
  unfoldable pub backfill_following_feed :
      Option (Bytes → ℕ → Result (List Bytes)) → Bytes → Bytes → State → State
  unfolding is_celeb
  backfill_following_feed none follower_id followee_id s = s
  backfill_following_feed (some get_recent_tweets) follower_id followee_id s =
      if is_celeb followee_id s
      then s
      else backfill_with (get_recent_tweets followee_id backfill_limit) follower_id s
