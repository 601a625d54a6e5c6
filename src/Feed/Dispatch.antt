-- ===== src/Feed/Dispatch.antt =====
-- Consumer.dispatch of apps/feed-service/internal/consumer/consumer.go: which handlers it calls for a
-- message, with which arguments. The handlers on the `following:*` lists are in Feed/Fanout. A weight
-- is a count of tenths. `set_tweet_snapshot` includes the read of the author's snapshot before it.
-- `launch_fan_out` is g.Go with FanOut: it starts a goroutine that dispatch does not wait for.
use twitter_microservices.Prelude.{
  ℕ, Option, none, some, List, [], ◌∷◌, Bytes, ◌=?◌, if◌then◌else◌, ℤ, pos, negsuc,
}
use twitter_microservices.Shared.Errors.{unmarshal, Result, ok, err, ◌>>=◌}
use twitter_microservices.Shared.Events.{
  TweetCreatedEvent, TweetLikedEvent, TweetRetweetedEvent, UserFollowedEvent, Unmarshal,
}
use twitter_microservices.Shared.Kafka.{
  Message, topic_tweet_created, topic_tweet_retweeted, topic_tweet_unretweeted, topic_tweet_deleted,
  topic_tweet_liked, topic_user_followed, topic_user_updated,
}
use twitter_microservices.Feed.Entry.{encode_tweet_entry, encode_retweet_entry}

pub data Action : Type 0 where
  set_tweet_snapshot :
      (tweet_id author_id body reply_to_id media_id media_url : Bytes) (hashtags : List Bytes)
      (created_at : ℤ)
      → Action
  increment_trending : List Bytes → Action
  launch_fan_out : (entry author_id : Bytes) → Action
  apply_retweet_signals : (original_tweet_id original_author_id retweeter_id : Bytes) → Action
  remove_retweet_from_followers : (retweeter_id retweet_id : Bytes) → Action
  delete_tweet_snapshot : Bytes → Action
  update_user_affinity : (user_id author_id : Bytes) (weight : ℕ) → Action
  update_user_interests : (user_id : Bytes) (hashtags : List Bytes) (weight : ℕ) → Action
  backfill_following_feed : (follower_id followee_id : Bytes) → Action
  update_author_in_tweet_snapshots : (user_id username display_name avatar_url : Bytes) → Action

-- `createdAt <= 0` is replaced by the current time.
abbrev created_or_now : ℤ → ℤ → ℤ
created_or_now (pos ℕ.zero) now = now
created_or_now (pos (ℕ.suc n)) now = pos (ℕ.suc n)
created_or_now (negsuc n) now = now

unfoldable pub on_tweet_created : TweetCreatedEvent → List Action
on_tweet_created evt =
    set_tweet_snapshot evt.tweet_id evt.author_id evt.body [] evt.media_id evt.media_url
      evt.hashtags evt.created_at
    ∷ increment_trending evt.hashtags
    ∷ launch_fan_out (encode_tweet_entry evt.tweet_id) evt.author_id
    ∷ []

unfoldable pub on_tweet_retweeted : ℤ → TweetRetweetedEvent → List Action
on_tweet_retweeted now evt =
    apply_retweet_signals evt.original_tweet_id evt.original_author_id evt.retweeter_id
    ∷ launch_fan_out
        (encode_retweet_entry evt.retweet_id evt.original_tweet_id evt.retweeter_id
          (created_or_now evt.created_at now))
        evt.retweeter_id
    ∷ []

unfoldable pub on_tweet_liked : TweetLikedEvent → List Action
on_tweet_liked evt =
    update_user_affinity evt.liker_id evt.author_id 10
    ∷ update_user_interests evt.liker_id evt.hashtags 10
    ∷ []

unfoldable pub on_user_followed : UserFollowedEvent → List Action
on_user_followed evt =
    update_user_affinity evt.follower_id evt.followee_id 50
    ∷ backfill_following_feed evt.follower_id evt.followee_id
    ∷ []

-- A payload that cannot be read is errUnmarshal.
abbrev decoded {ℓ} : {A : Type ℓ} → Option A → Result A
decoded none = err unmarshal
decoded (some a) = ok a

-- dispatch, at the Unix time `now`.
unfoldable pub dispatch : Unmarshal → ℤ → Message → Result (List Action)
unfolding on_tweet_created on_tweet_retweeted on_tweet_liked on_user_followed
dispatch u now msg =
    if msg.topic =? topic_tweet_created
    then (do evt ← decoded (u.tweet_created msg.value); ok (on_tweet_created evt))
    else if msg.topic =? topic_tweet_retweeted
    then (do evt ← decoded (u.tweet_retweeted msg.value); ok (on_tweet_retweeted now evt))
    else if msg.topic =? topic_tweet_unretweeted
    then (do
      evt ← decoded (u.tweet_unretweeted msg.value)
      ok (remove_retweet_from_followers evt.retweeter_id evt.retweet_id ∷ []))
    else if msg.topic =? topic_tweet_deleted
    then (do
      evt ← decoded (u.tweet_deleted msg.value)
      ok (delete_tweet_snapshot evt.tweet_id ∷ []))
    else if msg.topic =? topic_tweet_liked
    then (do evt ← decoded (u.tweet_liked msg.value); ok (on_tweet_liked evt))
    else if msg.topic =? topic_user_followed
    then (do evt ← decoded (u.user_followed msg.value); ok (on_user_followed evt))
    else if msg.topic =? topic_user_updated
    then (do
      evt ← decoded (u.user_updated msg.value)
      ok (
          update_author_in_tweet_snapshots evt.user_id evt.username evt.display_name evt.avatar_url
          ∷ []))
    else ok []
