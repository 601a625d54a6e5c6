-- ===== src/Shared/Events.antt =====
-- The event payloads of apps/shared/events/events.go. A time is its Unix seconds; json.Unmarshal is a
-- parameter that gives `none` on an error.
use twitter_microservices.Prelude.{Option, List, Bytes, ℤ}

pub record TweetCreatedEvent : Type 0 where
  pub tweet_id : Bytes
  pub author_id : Bytes
  pub body : Bytes
  pub hashtags : List Bytes
  pub reply_to_id : Bytes
  pub media_id : Bytes
  pub media_url : Bytes
  pub created_at : ℤ

pub record TweetDeletedEvent : Type 0 where
  pub tweet_id : Bytes
  pub author_id : Bytes

pub record TweetLikedEvent : Type 0 where
  pub tweet_id : Bytes
  pub liker_id : Bytes
  pub author_id : Bytes
  pub hashtags : List Bytes

pub record TweetRetweetedEvent : Type 0 where
  pub retweet_id : Bytes
  pub original_tweet_id : Bytes
  pub original_author_id : Bytes
  pub retweeter_id : Bytes
  pub created_at : ℤ

pub record TweetUnretweetedEvent : Type 0 where
  pub retweet_id : Bytes
  pub original_tweet_id : Bytes
  pub retweeter_id : Bytes

pub record TweetRepliedEvent : Type 0 where
  pub reply_id : Bytes
  pub parent_tweet_id : Bytes
  pub parent_author_id : Bytes
  pub replier_id : Bytes

pub record UserCreatedEvent : Type 0 where
  pub user_id : Bytes
  pub username : Bytes
  pub display_name : Bytes
  pub bio : Bytes
  pub avatar_url : Bytes
  pub created_at : ℤ

pub record UserFollowedEvent : Type 0 where
  pub follower_id : Bytes
  pub followee_id : Bytes
  pub created_at : ℤ

pub record UserUpdatedEvent : Type 0 where
  pub user_id : Bytes
  pub username : Bytes
  pub display_name : Bytes
  pub bio : Bytes
  pub avatar_url : Bytes

-- json.Unmarshal into each payload.
pub record Unmarshal : Type 0 where
  pub tweet_created : Bytes → Option TweetCreatedEvent
  pub tweet_deleted : Bytes → Option TweetDeletedEvent
  pub tweet_liked : Bytes → Option TweetLikedEvent
  pub tweet_retweeted : Bytes → Option TweetRetweetedEvent
  pub tweet_unretweeted : Bytes → Option TweetUnretweetedEvent
  pub tweet_replied : Bytes → Option TweetRepliedEvent
  pub user_created : Bytes → Option UserCreatedEvent
  pub user_followed : Bytes → Option UserFollowedEvent
  pub user_updated : Bytes → Option UserUpdatedEvent
