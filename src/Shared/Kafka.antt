-- ===== src/Shared/Kafka.antt =====
-- Kafka messages as the services see them (kafka.Message and kafka.Header of segmentio/kafka-go), the
-- topics of apps/shared/events/events.go, and extractEventID, which the consumers of
-- apps/feed-service and apps/notification-service share word for word.
use twitter_microservices.Prelude.{
  ℕ, Option, List, [], ◌∷◌, Bytes, codes, ◌=?◌, if◌then◌else◌, ℤ, pos,
}
use twitter_microservices.Text.Decimal.{parse_int}
use twitter_microservices.Shared.Errors.{Error}

pub record Header : Type 0 where
  pub key : Bytes
  pub value : Bytes

pub record Message : Type 0 where
  pub topic : Bytes
  pub partition : ℕ
  pub offset : ℕ
  pub key : Bytes
  pub value : Bytes
  pub headers : List Header

-- A writer and a consumer group's offsets; a call may fail and may change the state all the same.
pub record Broker : Type 1 where
  pub State : Type 0
  pub write_messages : List Message → State → State × Option Error
  pub commit_messages : Message → State → State × Option Error

abbrev pub topic_tweet_created : Bytes
topic_tweet_created = codes "tweet.created"

abbrev pub topic_tweet_deleted : Bytes
topic_tweet_deleted = codes "tweet.deleted"

abbrev pub topic_tweet_liked : Bytes
topic_tweet_liked = codes "tweet.liked"

abbrev pub topic_tweet_retweeted : Bytes
topic_tweet_retweeted = codes "tweet.retweeted"

abbrev pub topic_tweet_unretweeted : Bytes
topic_tweet_unretweeted = codes "tweet.unretweeted"

abbrev pub topic_tweet_replied : Bytes
topic_tweet_replied = codes "tweet.replied"

abbrev pub topic_user_created : Bytes
topic_user_created = codes "user.created"

abbrev pub topic_user_followed : Bytes
topic_user_followed = codes "user.followed"

abbrev pub topic_user_updated : Bytes
topic_user_updated = codes "user.updated"

-- outbox.EventIDHeader
abbrev pub event_id_header : Bytes
event_id_header = codes "X-Event-ID"

-- The first header of that name decides; the error of ParseInt is dropped.
unfoldable pub event_id_of : List Header → ℤ
event_id_of [] = pos 0
event_id_of (h ∷ hs) =
    if h.key =? event_id_header then (parse_int 64 h.value).value else event_id_of hs

-- extractEventID
unfoldable pub extract_event_id : Message → ℤ
unfolding event_id_of
extract_event_id msg = event_id_of msg.headers
