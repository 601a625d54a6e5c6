-- ===== src/Search/Indexer.antt =====
-- apps/search-service/internal/indexer/indexer.go: the consumer that keeps the indices. The embedding
-- client, json.Marshal and json.Unmarshal, the clock and the Kafka connection are parameters; a round
-- of Run is a function from the fetched message.
pub mod Mirror
use twitter_microservices.Prelude.{
  ℕ, Bool, true, false, Option, none, some, List, [], ◌∷◌, ◌++◌, Bytes, codes, ◌=?◌, if◌then◌else◌,
  ℤ, pos,
}
use twitter_microservices.Shared.Errors.{Error, unmarshal, app, no_rows, pg, other, Result, ok, err}
use twitter_microservices.Shared.Events.{
  TweetCreatedEvent, TweetDeletedEvent, UserCreatedEvent, UserUpdatedEvent, Unmarshal,
}
use twitter_microservices.Shared.Kafka.{
  Message, topic_tweet_created, topic_tweet_deleted, topic_user_created, topic_user_updated,
}
use twitter_microservices.Search.Docs.{Vector, TweetDoc, UserDoc}
use twitter_microservices.Search.Index.{Server, index_tweets, index_users, upsert, delete}

-- What a round takes from outside: the answers of the embedding service, the two kinds of JSON and
-- the time in Unix seconds.
pub record Env : Type 0 where
  pub embed : Bytes → Result Vector
  pub marshal_tweet : TweetDoc → Result Bytes
  pub marshal_user : UserDoc → Result Bytes
  pub read : Unmarshal
  pub now : ℤ

-- Without an embedding the document has no vector.
abbrev vector_of : Result Vector → Vector
vector_of (ok v) = v
vector_of (err e) = []

abbrev user_text : (username bio : Bytes) → Bytes
user_text username [] = username
user_text username (c ∷ bio) = username ++ codes " " ++ (c ∷ bio)

-- What a round sends to Kafka.
pub data Fate : Type 0 where
  committed : Fate
  dead_lettered_and_committed : Fate
  left : Fate

-- errors.Is(err, errUnmarshal)
abbrev pub fate_of : Option Error → Fate
fate_of none = committed
fate_of (some unmarshal) = dead_lettered_and_committed
fate_of (some e) = left

module _ (env : Env) where
  open env use {embed, read, now}

  -- The document of indexTweet
  abbrev pub tweet_doc : TweetCreatedEvent → TweetDoc
  tweet_doc evt = record {
    id = evt.tweet_id;
    author_id = evt.author_id;
    body = evt.body;
    hashtags = evt.hashtags;
    like_count = pos 0;
    retweet_count = pos 0;
    reply_to_id = evt.reply_to_id;
    media_id = evt.media_id;
    media_url = evt.media_url;
    created_at = evt.created_at;
    vector = vector_of (embed evt.body);
  }

  -- The document of indexUserCreated
  abbrev pub created_doc : UserCreatedEvent → UserDoc
  created_doc evt = record {
    id = evt.user_id;
    username = evt.username;
    display_name = evt.display_name;
    bio = evt.bio;
    avatar_url = evt.avatar_url;
    updated_at = evt.created_at;
    vector = vector_of (embed (user_text evt.username evt.bio));
  }

  -- The document of indexUserUpdated
  abbrev pub updated_doc : UserUpdatedEvent → UserDoc
  updated_doc evt = record {
    id = evt.user_id;
    username = evt.username;
    display_name = evt.display_name;
    bio = evt.bio;
    avatar_url = evt.avatar_url;
    updated_at = now;
    vector = vector_of (embed (user_text evt.username evt.bio));
  }

  module _ (srv : Server) where
    open srv use {State}

    abbrev pub index_tweet : TweetCreatedEvent → State → State × Option Error
    index_tweet evt = upsert srv index_tweets evt.tweet_id (env.marshal_tweet (tweet_doc evt))

    abbrev pub index_user_created : UserCreatedEvent → State → State × Option Error
    index_user_created evt = upsert srv index_users evt.user_id (env.marshal_user (created_doc evt))

    abbrev pub index_user_updated : UserUpdatedEvent → State → State × Option Error
    index_user_updated evt = upsert srv index_users evt.user_id (env.marshal_user (updated_doc evt))

    -- A payload that cannot be read is errUnmarshal.
    abbrev decoded :
        {A : Type 0} → Option A → (A → State → State × Option Error) → State → State × Option Error
    decoded none f s = (s, some unmarshal)
    decoded (some evt) f s = f evt s

    -- dispatch
    unfoldable pub dispatch : Message → State → State × Option Error
    unfolding upsert delete
    dispatch msg s =
        if msg.topic =? topic_tweet_created
        then decoded (read.tweet_created msg.value) index_tweet s
        else if msg.topic =? topic_tweet_deleted
        then decoded (read.tweet_deleted msg.value) (λ evt. delete srv index_tweets evt.tweet_id) s
        else if msg.topic =? topic_user_created
        then decoded (read.user_created msg.value) index_user_created s
        else if msg.topic =? topic_user_updated
        then decoded (read.user_updated msg.value) index_user_updated s
        else (s, none)

    -- One round of Run, for a fetched message.
    unfoldable pub round : Message → State → State × Fate
    unfolding dispatch
    round msg s = let (t, e) = dispatch msg s in (t, fate_of e)
