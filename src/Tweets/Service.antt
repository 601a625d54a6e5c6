-- ===== src/Tweets/Service.antt =====
-- Create, Delete, Like, Unlike, Retweet, Unretweet and Reply of apps/tweet-service/internal/tweet/service.go.
-- ExecTx, json.Marshal, the clock, new IDs and the trace are parameters. The result of a call carries
-- the commands that it sends to Redis behind the transaction.
pub mod Likes
use twitter_microservices.Prelude.{
  ℕ, Bool, true, false, not, ◌||◌, Option, none, some, List, [], ◌∷◌, ◌++◌, Bytes, codes, ◌=?◌,
  ◌==◌, if◌then◌else◌, ℤ, pos, negsuc,
}
use twitter_microservices.Shared.Errors.{
  AppError, Error, app, Result, ok, err, map_err, is_unique_violation, err_forbidden,
}
use twitter_microservices.Shared.Events.{
  TweetCreatedEvent, TweetDeletedEvent, TweetLikedEvent, TweetRetweetedEvent, TweetUnretweetedEvent,
  TweetRepliedEvent,
}
use twitter_microservices.Shared.Kafka.{
  topic_tweet_created, topic_tweet_deleted, topic_tweet_liked, topic_tweet_retweeted,
  topic_tweet_unretweeted, topic_tweet_replied,
}
use twitter_microservices.Shared.Redis.{Command, hincrby}
use twitter_microservices.Shared.Tx.{Tx, ExecTx, pure, fail, map_tx, or_log, ◌>>=◌, ◌>>◌}
use twitter_microservices.Tweets.Hashtag.{extract}
use twitter_microservices.Tweets.Store.{
  Tweet, Retweet, Tables, get_tweet_by_id, create_tweet, delete_tweet, create_like, delete_like,
  increment_like_count, decrement_like_count, increment_retweet_count, decrement_retweet_count,
  increment_reply_count, insert_retweet, get_retweet_by_pair, delete_retweet_by_pair, insert_outbox,
}

-- json.Marshal of each payload.
pub record Marshal : Type 0 where
  pub created : TweetCreatedEvent → Result Bytes
  pub deleted : TweetDeletedEvent → Result Bytes
  pub liked : TweetLikedEvent → Result Bytes
  pub retweeted : TweetRetweetedEvent → Result Bytes
  pub unretweeted : TweetUnretweetedEvent → Result Bytes
  pub replied : TweetRepliedEvent → Result Bytes

pub record Env : Type 1 where
  pub exec_tx : ExecTx Tables
  pub has_redis : Bool
  pub marshal : Marshal
  pub now : ℤ
  pub new_id : Bytes
  pub trace_id : Bytes

-- incrCount; `false` is a service without Redis.
unfoldable pub incr_count : Bool → Bytes → Bytes → ℤ → List Command
incr_count false tweet_id count delta = []
incr_count true tweet_id count delta = hincrby (codes "tweet:counts:" ++ tweet_id) count delta ∷ []

-- hasContent
unfoldable pub has_content : Bytes → Option Bytes → Bool
has_content body none = not (body =? [])
has_content body (some media_id) = not (body =? []) || not (media_id =? [])

abbrev pub empty_tweet : Bytes → AppError
empty_tweet message = record { status = 400; code = codes "EMPTY_TWEET"; message = message }

abbrev pub already_retweeted : AppError
already_retweeted = record {
  status = 409;
  code = codes "ALREADY_RETWEETED";
  message = codes "already retweeted";
}

-- What a failed InsertRetweet becomes.
abbrev retweet_error : Result Retweet × Tables → Result Retweet × Tables
retweet_error (ok r, s) = (ok r, s)
retweet_error (err e, s) =
    (err (if is_unique_violation e then app already_retweeted else map_err e), s)

module _ (env : Env) where
  open env use {exec_tx, has_redis, marshal, now, new_id, trace_id}

  -- outboxEnqueue behind json.Marshal.
  abbrev pub outbox_enqueue : Bytes → Bytes → Result Bytes → Tx Tables (Unit {0})
  outbox_enqueue topic key (err e) = fail e
  outbox_enqueue topic key (ok b) = insert_outbox topic key b trace_id

  -- A tweet as the database makes it of the columns that are given.
  abbrev new_tweet : Bytes → Bytes → Option Bytes → Option Bytes → Option Bytes → Tweet
  new_tweet author_id body reply_to_id media_id media_url = record {
    id = codes "tw_" ++ new_id;
    author_id = author_id;
    body = body;
    reply_to_id = reply_to_id;
    media_id = media_id;
    media_url = media_url;
    like_count = 0;
    retweet_count = 0;
    reply_count = 0;
    created_at = now;
  }

  abbrev or_empty : Option Bytes → Bytes
  or_empty none = []
  or_empty (some b) = b

  abbrev created_event : Tweet → TweetCreatedEvent
  created_event t = record {
    tweet_id = t.id;
    author_id = t.author_id;
    body = t.body;
    hashtags = extract t.body;
    reply_to_id = [];
    media_id = or_empty t.media_id;
    media_url = or_empty t.media_url;
    created_at = t.created_at;
  }

  -- Create, at the transaction; the result is the tweet.
  unfoldable pub create : Bytes → Bytes → Option Bytes → Option Bytes → Tx Tables Tweet
  unfolding create_tweet insert_outbox has_content
  create author_id body media_id media_url =
      if has_content body media_id
      then exec_tx Tweet (do
        t ← map_tx (create_tweet (new_tweet author_id body none media_id media_url))
        outbox_enqueue topic_tweet_created t.author_id (marshal.created (created_event t))
        pure t)
      else fail (app (empty_tweet (codes "tweet must have body or media")))

  -- Delete
  unfoldable pub delete : Bytes → Bytes → Tx Tables (Unit {0})
  unfolding get_tweet_by_id delete_tweet insert_outbox
  delete tweet_id author_id = do
    t ← map_tx (get_tweet_by_id tweet_id)
    if t.author_id =? author_id
        then (exec_tx Unit (do
          map_tx (delete_tweet tweet_id author_id)
          outbox_enqueue topic_tweet_deleted author_id
              (marshal.deleted (record { tweet_id = tweet_id; author_id = author_id }))))
        else fail (app err_forbidden)

  abbrev pub liked_event : Bytes → Bytes → Tweet → TweetLikedEvent
  liked_event user_id tweet_id t = record {
    tweet_id = tweet_id;
    liker_id = user_id;
    author_id = t.author_id;
    hashtags = extract t.body;
  }

  -- The part of the transaction behind CreateLike; the result is `alreadyLiked`.
  abbrev pub applied_like : Bytes → Bytes → TweetLikedEvent → ℕ → Tx Tables Bool
  applied_like user_id tweet_id evt rows_affected = if rows_affected == 0 then pure true else (do
    or_log (increment_like_count tweet_id)
    outbox_enqueue topic_tweet_liked tweet_id (marshal.liked evt)
    pure false)

  -- The transaction of Like.
  unfoldable pub like_tx : Bytes → Bytes → TweetLikedEvent → Tx Tables Bool
  unfolding create_like increment_like_count insert_outbox
  like_tx user_id tweet_id evt = do
    rows_affected ← map_tx (create_like user_id tweet_id)
    applied_like user_id tweet_id evt rows_affected

  -- Like: whether it was liked before, and the Redis commands.
  unfoldable pub like : Bytes → Bytes → Tx Tables (Bool × List Command)
  unfolding get_tweet_by_id incr_count
  like user_id tweet_id = do
    t ← map_tx (get_tweet_by_id tweet_id)
    already ← exec_tx Bool (like_tx user_id tweet_id (liked_event user_id tweet_id t))
    pure (
      already,
      if already then [] else incr_count has_redis tweet_id (codes "like_count") (pos 1),
    )

  -- The transaction of Unlike.
  unfoldable pub unlike_tx : Bytes → Bytes → Tx Tables (Unit {0})
  unfolding delete_like decrement_like_count
  unlike_tx user_id tweet_id = do
    map_tx (delete_like user_id tweet_id)
    or_log (decrement_like_count tweet_id)
    pure tt

  -- Unlike
  unfoldable pub unlike : Bytes → Bytes → Tx Tables (List Command)
  unfolding incr_count
  unlike user_id tweet_id = do
    exec_tx Unit (unlike_tx user_id tweet_id)
    pure (incr_count has_redis tweet_id (codes "like_count") (negsuc 0))

  abbrev new_retweet : Bytes → Bytes → Retweet
  new_retweet user_id original_id = record {
    id = codes "rt_" ++ new_id;
    retweeter_id = user_id;
    original_tweet_id = original_id;
    created_at = now;
  }

  abbrev insert_new_retweet : Retweet → Tx Tables Retweet
  insert_new_retweet r s = retweet_error (insert_retweet r s)

  abbrev retweeted_event : Tweet → Retweet → TweetRetweetedEvent
  retweeted_event original r = record {
    retweet_id = r.id;
    original_tweet_id = r.original_tweet_id;
    original_author_id = original.author_id;
    retweeter_id = r.retweeter_id;
    created_at = r.created_at;
  }

  -- Retweet
  unfoldable pub retweet : Bytes → Bytes → Tx Tables (Retweet × List Command)
  unfolding get_tweet_by_id insert_retweet increment_retweet_count insert_outbox incr_count
      is_unique_violation
  retweet user_id original_id = do
    original ← map_tx (get_tweet_by_id original_id)
    r ← exec_tx Retweet (do
      r ← insert_new_retweet (new_retweet user_id original_id)
      or_log (increment_retweet_count original_id)
      outbox_enqueue topic_tweet_retweeted original_id
          (marshal.retweeted (retweeted_event original r))
      pure r)
    pure (r, incr_count has_redis original_id (codes "retweet_count") (pos 1))

  -- Unretweet
  unfoldable pub unretweet : Bytes → Bytes → Tx Tables (List Command)
  unfolding get_retweet_by_pair delete_retweet_by_pair decrement_retweet_count insert_outbox
      incr_count
  unretweet user_id original_id = do
    existing ← map_tx (get_retweet_by_pair user_id original_id)
    exec_tx Unit (do
      map_tx (delete_retweet_by_pair user_id original_id)
      or_log (decrement_retweet_count original_id)
      outbox_enqueue topic_tweet_unretweeted original_id (
          marshal.unretweeted (record {
            retweet_id = existing.id;
            original_tweet_id = original_id;
            retweeter_id = user_id;
          })))
    pure (incr_count has_redis original_id (codes "retweet_count") (negsuc 0))

  -- Reply
  unfoldable pub reply :
      Bytes → Bytes → Bytes → Option Bytes → Option Bytes → Tx Tables (Tweet × List Command)
  unfolding get_tweet_by_id create_tweet increment_reply_count insert_outbox incr_count has_content
  reply author_id parent_id body media_id media_url =
      if has_content body media_id
      then (do
        parent ← map_tx (get_tweet_by_id parent_id)
        t ← exec_tx Tweet (do
          t ← map_tx (create_tweet (new_tweet author_id body (some parent_id) media_id media_url))
          or_log (increment_reply_count parent_id)
          outbox_enqueue topic_tweet_replied parent_id (
              marshal.replied (record {
                reply_id = codes "tw_" ++ new_id;
                parent_tweet_id = parent_id;
                parent_author_id = parent.author_id;
                replier_id = author_id;
              }))
          pure t)
        pure (t, incr_count has_redis parent_id (codes "reply_count") (pos 1)))
      else fail (app (empty_tweet (codes "reply must have body or media")))
