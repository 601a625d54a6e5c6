-- ===== src/Feed/Handlers/Deleted.antt =====
-- A message of tweet.deleted, from the dispatch to the read path.
use twitter_microservices.Prelude.{◌≡◌, none, some, List, [], ◌∷◌, codes, ◌=?◌, ℤ}
use twitter_microservices.Shared.Errors.{ok}
use twitter_microservices.Shared.Events.{Unmarshal, TweetDeletedEvent}
use twitter_microservices.Shared.Kafka.{Message, topic_tweet_deleted}
use twitter_microservices.Shared.Redis.{Redis, del}
use twitter_microservices.Shared.Redis.Hashes.{KeepsHashes}
use twitter_microservices.Feed.Dispatch.{Action, dispatch, delete_tweet_snapshot}
use twitter_microservices.Feed.Handlers.{Clients, perform, perform_all}
use twitter_microservices.Feed.Snapshots.{tweet_snapshot_key, forget, get_tweet_snapshot}
use twitter_microservices.Feed.Snapshots.Deleted.{deleted_not_found}

module _ (r : Redis) (k : KeepsHashes r) (c : Clients) (u : Unmarshal) (now : ℤ) (msg : Message)
    (evt : TweetDeletedEvent) (s : Redis.State r) where
  -- Behind the handlers of a tweet.deleted message with a readable payload GetTweetSnapshot finds no
  -- tweet, whether the author of the tweet was known or not, if the pipeline meets no error.
  pub deleted_message_hides :
      msg.topic ≡ topic_tweet_deleted
      → u.tweet_deleted msg.value ≡ some evt
      → (Redis.exec r
          (del (tweet_snapshot_key evt.tweet_id)
            ∷ forget evt.tweet_id
                (Redis.hget r (tweet_snapshot_key evt.tweet_id) (codes "author_id") s))
          s).1
        ≡ none
      → (actions : List Action) × (dispatch u now msg ≡ ok actions)
        × (get_tweet_snapshot r evt.tweet_id (perform_all r c actions s) ≡ none)
  unfolding dispatch perform perform_all ◌=?◌
  deleted_message_hides topic payload sent = (
    delete_tweet_snapshot evt.tweet_id ∷ [],
    rw (dispatch, topic, payload),
    deleted_not_found r k evt.tweet_id s sent,
  )
