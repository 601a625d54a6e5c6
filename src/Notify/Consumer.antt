-- ===== src/Notify/Consumer.antt =====
-- Consumer of apps/notification-service/internal/consumer/consumer.go: dispatch, its retries, and a
-- round of Run. json.Unmarshal is a parameter; an environment is given for every attempt, since a
-- retry has its own clock, new ID and failures.
pub mod Retry
use twitter_microservices.Prelude.{
  ℕ, zero, suc, ◌+◌, Bool, true, false, Option, none, some, List, [], ◌∷◌, ◌++◌, Bytes, codes, ◌=?◌,
  ◌==◌, if◌then◌else◌, ℤ, pos, negsuc,
}
use twitter_microservices.Shared.Errors.{
  AppError, Error, app, no_rows, pg, unmarshal, other, Result, ok, err,
}
use twitter_microservices.Shared.Events.{
  TweetLikedEvent, TweetRetweetedEvent, TweetUnretweetedEvent, TweetRepliedEvent, UserFollowedEvent,
  Unmarshal,
}
use twitter_microservices.Shared.Kafka.{
  Message, extract_event_id, topic_tweet_liked, topic_tweet_retweeted, topic_tweet_unretweeted,
  topic_tweet_replied, topic_user_followed,
}
use twitter_microservices.Shared.Tx.{Tx, pure, fail}
use twitter_microservices.Notify.Store.{Notification, Tables, is_processed}
use twitter_microservices.Notify.Service.{
  Env, create_from_like, create_from_retweet, delete_from_retweet, create_from_reply,
  create_from_follow,
}

-- A payload that cannot be read is errUnmarshal.
abbrev decoded {ℓ} :
    {A : Type ℓ}
    → Option A
    → (A → Tx Tables (Option Notification))
    → Tx Tables (Option Notification)
decoded none handle = fail unmarshal
decoded (some evt) handle = handle evt

-- dispatch
unfoldable pub dispatch : Unmarshal → Env → ℤ → Message → Tx Tables (Option Notification)
unfolding create_from_like create_from_retweet delete_from_retweet create_from_reply
    create_from_follow
dispatch u env event_id msg =
    if msg.topic =? topic_tweet_liked
    then decoded (u.tweet_liked msg.value)
        (λ evt. create_from_like env event_id evt.liker_id evt.author_id evt.tweet_id)
    else if msg.topic =? topic_tweet_retweeted
    then decoded (u.tweet_retweeted msg.value) (λ evt.
      create_from_retweet env event_id evt.retweeter_id evt.original_author_id
        evt.original_tweet_id)
    else if msg.topic =? topic_tweet_unretweeted
    then decoded (u.tweet_unretweeted msg.value)
        (λ evt. delete_from_retweet env evt.retweeter_id evt.original_tweet_id)
    else if msg.topic =? topic_tweet_replied
    then decoded (u.tweet_replied msg.value) (λ evt.
      create_from_reply env event_id evt.replier_id evt.parent_author_id evt.parent_tweet_id)
    else if msg.topic =? topic_user_followed
    then decoded (u.user_followed msg.value)
        (λ evt. create_from_follow env event_id evt.follower_id evt.followee_id)
    else pure none

abbrev pub dispatch_max_attempts : ℕ
dispatch_max_attempts = 3

-- errors.Is(err, errUnmarshal)
abbrev pub is_unmarshal : Error → Bool
is_unmarshal unmarshal = true
is_unmarshal _ = false

-- What a failed attempt is followed by: `again` is the next attempt.
abbrev retry :
    ℕ
    → Error
    → Option Error
    → Tables
    → Result (Option Notification) × Tables
    → Result (Option Notification) × Tables
retry left e cancelled s again =
    if is_unmarshal e
    then (err e, s)
    else if left == 0
    then (err e, s)
    else elim cancelled [ some c ↦ (err c, s) | none ↦ again ]

-- The loop of dispatchWithRetry over `attempt`; `cancelled attempt` is ctx.Err() where the context ends
-- during the wait behind that attempt.
unfoldable pub attempts :
    (ℕ → Tx Tables (Option Notification))
    → (ℕ → Option Error)
    → ℕ
    → ℕ
    → Tx Tables (Option Notification)
attempts dispatch cancelled zero attempt s = (ok none, s)
attempts dispatch cancelled (suc left) attempt s =
    let (r, t) = dispatch attempt s in
    let again = attempts dispatch cancelled left (attempt + 1) t in
    elim r [ ok n ↦ (ok n, t) | err e ↦ retry left e (cancelled attempt) t again ]

-- dispatchWithRetry
unfoldable pub dispatch_with_retry :
    Unmarshal → (ℕ → Env) → (ℕ → Option Error) → Message → Tx Tables (Option Notification)
unfolding attempts dispatch
dispatch_with_retry u envs cancelled msg =
    attempts (λ attempt. dispatch u (envs attempt) (extract_event_id msg) msg) cancelled
      dispatch_max_attempts 0

abbrev is_zero : ℤ → Bool
is_zero (pos n) = n == 0
is_zero (negsuc n) = false

-- isDuplicate, for a consumer with a DedupStore, whose query fails if the first argument is an error.
unfoldable pub is_duplicate : Option Error → Message → Tables → Result Bool
is_duplicate fails msg s =
    if is_zero (extract_event_id msg)
    then ok false
    else elim fails [ some e ↦ err e | none ↦ ok (is_processed (extract_event_id msg) s.processed) ]

-- What a round sends to Kafka.
pub data Effect : Type 0 where
  dead_lettered : Message → Error → Effect
  committed : Message → Effect

abbrev settled : Message → Result (Option Notification) × Tables → List Effect × Tables
settled msg (ok n, s) = (committed msg ∷ [], s)
settled msg (err e, s) = (dead_lettered msg e ∷ committed msg ∷ [], s)

-- A round of Run for a fetched message.
unfoldable pub round :
    Unmarshal
    → (ℕ → Env)
    → (ℕ → Option Error)
    → Option Error
    → Message
    → Tables
    → List Effect × Tables
unfolding is_duplicate dispatch_with_retry
round u envs cancelled check_fails msg s = elim (is_duplicate check_fails msg s) [
  | err e ↦ ([], s)
  | ok true ↦ (committed msg ∷ [], s)
  | ok false ↦ settled msg (dispatch_with_retry u envs cancelled msg s)
]
