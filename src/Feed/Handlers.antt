-- ===== src/Feed/Handlers.antt =====
-- What the handlers that dispatch calls do to Redis: applyRetweetSignals of
-- apps/feed-service/internal/consumer/consumer.go and, by name, the others of Feed/Signals,
-- Feed/Snapshots and Feed/Fanout. A fan-out is performed where its goroutine runs.
pub mod Deleted
use twitter_microservices.Prelude.{ℕ, Option, none, some, List, [], ◌∷◌, Bytes, codes, ℤ}
use twitter_microservices.Shared.Errors.{Result}
use twitter_microservices.Shared.Redis.{Redis}
use twitter_microservices.Feed.Dispatch.{
  Action, set_tweet_snapshot, increment_trending, launch_fan_out, apply_retweet_signals,
  remove_retweet_from_followers, delete_tweet_snapshot, update_user_affinity, update_user_interests,
  backfill_following_feed, update_author_in_tweet_snapshots,
}
use twitter_microservices.Feed.Enrich.{Hash, field, hashtags_of}
use twitter_microservices.Feed.Fanout
use twitter_microservices.Feed.Signals
use twitter_microservices.Feed.Snapshots
use twitter_microservices.Feed.Snapshots.{get_tweet_snapshot, lookup_user_snapshot}

-- What the handlers take from outside: the gRPC calls and the Unix time.
pub record Clients : Type 0 where
  pub get_follower_ids : Bytes → Result (List Bytes)
  pub get_recent_tweets : Option (Bytes → ℕ → Result (List Bytes))
  pub now : ℤ

module _ (r : Redis) (c : Clients) where
  open r use {State}

  abbrev signals_of : Option Hash → Bytes → Bytes → State → State
  signals_of none original_author_id retweeter_id s = s
  signals_of (some snap) original_author_id retweeter_id s =
      let tags = hashtags_of (field snap (codes "hashtags")) in
      Signals.update_user_affinity r retweeter_id original_author_id 30 (
        Signals.update_user_interests r retweeter_id tags 30
          (Signals.increment_trending r c.now tags s))

  -- applyRetweetSignals; the three calls do nothing for no hashtags and no author.
  unfoldable pub retweet_signals : Bytes → Bytes → Bytes → State → State
  unfolding field get_tweet_snapshot Signals.update_user_affinity Signals.update_user_interests
      Signals.increment_trending
  retweet_signals original_tweet_id original_author_id retweeter_id s =
      signals_of (get_tweet_snapshot r original_tweet_id s) original_author_id retweeter_id s

  -- One action of dispatch.
  unfoldable pub perform : Action → State → State
  unfolding retweet_signals lookup_user_snapshot Snapshots.set_tweet_snapshot
      Snapshots.delete_tweet_snapshot Snapshots.update_author_in_tweet_snapshots
      Signals.update_user_affinity Signals.update_user_interests Signals.increment_trending
      Fanout.fan_out Fanout.remove_retweet_from_followers Fanout.backfill_following_feed
  perform (set_tweet_snapshot tweet_id author_id body reply_to_id media_id media_url hashtags at)
        s =
      Snapshots.set_tweet_snapshot r tweet_id
        (record {
          author_id = author_id;
          body = body;
          reply_to_id = reply_to_id;
          media_id = media_id;
          media_url = media_url;
          hashtags = hashtags;
          created_at = at;
        })
        (lookup_user_snapshot r author_id s) s
  perform (increment_trending tags) s = Signals.increment_trending r c.now tags s
  perform (launch_fan_out entry author_id) s = Fanout.fan_out r c.get_follower_ids entry author_id s
  perform (apply_retweet_signals tweet_id author_id retweeter_id) s =
      retweet_signals tweet_id author_id retweeter_id s
  perform (remove_retweet_from_followers retweeter_id retweet_id) s =
      Fanout.remove_retweet_from_followers r c.get_follower_ids retweeter_id retweet_id s
  perform (delete_tweet_snapshot id) s = Snapshots.delete_tweet_snapshot r id s
  perform (update_user_affinity user_id author_id weight) s =
      Signals.update_user_affinity r user_id author_id weight s
  perform (update_user_interests user_id tags weight) s =
      Signals.update_user_interests r user_id tags weight s
  perform (backfill_following_feed follower_id followee_id) s =
      Fanout.backfill_following_feed r c.get_recent_tweets follower_id followee_id s
  perform (update_author_in_tweet_snapshots user_id username display_name avatar_url) s =
      Snapshots.update_author_in_tweet_snapshots r user_id
        (record { username = username; display_name = display_name; avatar_url = avatar_url }) s

  -- The actions of a message, in their order.
  unfoldable pub perform_all : List Action → State → State
  unfolding perform
  perform_all [] s = s
  perform_all (a ∷ rest) s = perform_all rest (perform a s)
