-- ===== src/Tweets/Store.antt =====
-- The tables of apps/tweet-service, as the queries of apps/tweet-service/db/query.sql read and write
-- them, with the constraints of its migrations. A count is a natural number, since no query makes it negative.
use twitter_microservices.Prelude.{
  leb, ltb, not, ℕ, ◌+◌, ◌-◌, Bool, false, ◌&&◌, ◌||◌, Option, none, some, List, [], ◌∷◌, ◌++◌,
  Bytes, codes, ◌=?◌, if◌then◌else◌, ℤ, pos,
}
use twitter_microservices.Shared.Errors.{no_rows, pg, ok, err}
use twitter_microservices.Shared.Outbox.{Row}
use twitter_microservices.Shared.Tx.{Tx}

-- db.Tweet
pub record Tweet : Type 0 where
  pub id : Bytes
  pub author_id : Bytes
  pub body : Bytes
  pub reply_to_id : Option Bytes
  pub media_id : Option Bytes
  pub media_url : Option Bytes
  pub like_count : ℕ
  pub retweet_count : ℕ
  pub reply_count : ℕ
  pub created_at : ℤ

-- A row of likes.
pub record Like : Type 0 where
  pub user_id : Bytes
  pub tweet_id : Bytes

-- db.Retweet
pub record Retweet : Type 0 where
  pub id : Bytes
  pub retweeter_id : Bytes
  pub original_tweet_id : Bytes
  pub created_at : ℤ

pub record Tables : Type 0 where
  pub tweets : List Tweet
  pub likes : List Like
  pub retweets : List Retweet
  pub outbox : List Row
  -- the last value of the sequence behind outbox.id
  pub last_outbox_id : ℕ

abbrev pub find_tweet : Bytes → List Tweet → Option Tweet
find_tweet id [] = none
find_tweet id (t ∷ ts) = if t.id =? id then some t else find_tweet id ts

-- GetTweetByID, without the two columns about the viewer
unfoldable pub get_tweet_by_id : Bytes → Tx Tables Tweet
get_tweet_by_id id s = elim (find_tweet id s.tweets) [
  | none ↦ (err no_rows, s)
  | some t ↦ (ok t, s)
]

abbrev pub tweet_exists : Bytes → List Tweet → Bool
tweet_exists id [] = false
tweet_exists id (t ∷ ts) = t.id =? id || tweet_exists id ts

-- char_length of a text in UTF-8: the bytes that do not continue a character
abbrev char_length : Bytes → ℕ
char_length [] = 0
char_length (c ∷ s) = let rest = char_length s in if leb 128 c && ltb c 192 then rest else rest + 1

abbrev refers_to_none : Option Bytes → List Tweet → Bool
refers_to_none none ts = false
refers_to_none (some id) ts = not (tweet_exists id ts)

-- CreateTweet, and CreateReply: the body has at most 280 characters, and the tweet that a reply answers
-- exists. A new ID is taken to be fresh.
unfoldable pub create_tweet : Tweet → Tx Tables Tweet
create_tweet t s =
    if ltb 280 (char_length t.body)
    then (err (pg (codes "23514")), s)
    else if refers_to_none t.reply_to_id s.tweets
    then (err (pg (codes "23503")), s)
    else (ok t, record s { tweets = t ∷ s.tweets })

abbrev pub is_like : Bytes → Bytes → Like → Bool
is_like user tweet l = l.user_id =? user && l.tweet_id =? tweet

abbrev pub has_like : Bytes → Bytes → List Like → Bool
has_like user tweet [] = false
has_like user tweet (l ∷ ls) = is_like user tweet l || has_like user tweet ls

abbrev pub new_like : Bytes → Bytes → Like
new_like user tweet = record { user_id = user; tweet_id = tweet }

-- CreateLike: the number of rows affected. The tweet of a new row has to exist.
unfoldable pub create_like : Bytes → Bytes → Tx Tables ℕ
create_like user tweet s =
    if has_like user tweet s.likes
    then (ok 0, s)
    else if not (tweet_exists tweet s.tweets)
    then (err (pg (codes "23503")), s)
    else (ok 1, record s { likes = new_like user tweet ∷ s.likes })

abbrev pub without_like : Bytes → Bytes → List Like → List Like
without_like user tweet [] = []
without_like user tweet (l ∷ ls) =
    let rest = without_like user tweet ls in if is_like user tweet l then rest else l ∷ rest

-- DeleteLike
unfoldable pub delete_like : Bytes → Bytes → Tx Tables (Unit {0})
delete_like user tweet s = (ok tt, record s { likes = without_like user tweet s.likes })

-- UPDATE tweets SET … WHERE id = $1
abbrev pub update_tweets : Bytes → (Tweet → Tweet) → List Tweet → List Tweet
update_tweets id f [] = []
update_tweets id f (t ∷ ts) = (if t.id =? id then f t else t) ∷ update_tweets id f ts

abbrev pub more_likes : Tweet → Tweet
more_likes t = record t { like_count = t.like_count + 1 }

abbrev pub fewer_likes : Tweet → Tweet
fewer_likes t = record t { like_count = t.like_count - 1 }

-- IncrementLikeCount
unfoldable pub increment_like_count : Bytes → Tx Tables (Unit {0})
increment_like_count id s = (ok tt, record s { tweets = update_tweets id more_likes s.tweets })

-- DecrementLikeCount
unfoldable pub decrement_like_count : Bytes → Tx Tables (Unit {0})
decrement_like_count id s = (ok tt, record s { tweets = update_tweets id fewer_likes s.tweets })

-- IncrementRetweetCount
unfoldable pub increment_retweet_count : Bytes → Tx Tables (Unit {0})
increment_retweet_count id s = (
  ok tt,
  record s {
    tweets = update_tweets id (λ t. record t { retweet_count = t.retweet_count + 1 }) s.tweets;
  },
)

-- DecrementRetweetCount
unfoldable pub decrement_retweet_count : Bytes → Tx Tables (Unit {0})
decrement_retweet_count id s = (
  ok tt,
  record s {
    tweets = update_tweets id (λ t. record t { retweet_count = t.retweet_count - 1 }) s.tweets;
  },
)

-- IncrementReplyCount
unfoldable pub increment_reply_count : Bytes → Tx Tables (Unit {0})
increment_reply_count id s = (
  ok tt,
  record s {
    tweets = update_tweets id (λ t. record t { reply_count = t.reply_count + 1 }) s.tweets;
  },
)

abbrev is_pair : Bytes → Bytes → Retweet → Bool
is_pair user original r = r.retweeter_id =? user && r.original_tweet_id =? original

abbrev pub find_retweet : Bytes → Bytes → List Retweet → Option Retweet
find_retweet user original [] = none
find_retweet user original (r ∷ rs) =
    if is_pair user original r then some r else find_retweet user original rs

-- InsertRetweet: a second retweet of the pair is a unique violation, and the original has to exist.
unfoldable pub insert_retweet : Retweet → Tx Tables Retweet
insert_retweet r s = elim (find_retweet r.retweeter_id r.original_tweet_id s.retweets) [
  | some old ↦ (err (pg (codes "23505")), s)
  | none ↦
      if tweet_exists r.original_tweet_id s.tweets
      then (ok r, record s { retweets = r ∷ s.retweets })
      else (err (pg (codes "23503")), s)
]

-- GetRetweetByPair
unfoldable pub get_retweet_by_pair : Bytes → Bytes → Tx Tables Retweet
get_retweet_by_pair user original s = elim (find_retweet user original s.retweets) [
  | none ↦ (err no_rows, s)
  | some r ↦ (ok r, s)
]

abbrev without_retweet : Bytes → Bytes → List Retweet → List Retweet
without_retweet user original [] = []
without_retweet user original (r ∷ rs) =
    let rest = without_retweet user original rs in
    if is_pair user original r then rest else r ∷ rest

-- DeleteRetweetByPair
unfoldable pub delete_retweet_by_pair : Bytes → Bytes → Tx Tables (Unit {0})
delete_retweet_by_pair user original s =
    (ok tt, record s { retweets = without_retweet user original s.retweets })

-- InsertOutbox
unfoldable pub insert_outbox : Bytes → Bytes → Bytes → Bytes → Tx Tables (Unit {0})
insert_outbox topic key payload trace_id s = (
  ok tt,
  record s {
    outbox =
        s.outbox
        ++ record {
          id = pos (s.last_outbox_id + 1);
          topic = topic;
          key = key;
          payload = payload;
          trace_id = trace_id;
        }
          ∷ [];
    last_outbox_id = s.last_outbox_id + 1;
  },
)

-- What ON DELETE CASCADE and ON DELETE SET NULL do to the rows that refer to a deleted tweet.
abbrev likes_without : Bytes → List Like → List Like
likes_without id [] = []
likes_without id (l ∷ ls) =
    let rest = likes_without id ls in if l.tweet_id =? id then rest else l ∷ rest

abbrev retweets_without : Bytes → List Retweet → List Retweet
retweets_without id [] = []
retweets_without id (r ∷ rs) =
    let rest = retweets_without id rs in if r.original_tweet_id =? id then rest else r ∷ rest

abbrev detached : Bytes → Option Bytes → Option Bytes
detached id none = none
detached id (some parent) = if parent =? id then none else some parent

abbrev tweets_without : Bytes → List Tweet → List Tweet
tweets_without id [] = []
tweets_without id (t ∷ ts) =
    let rest = tweets_without id ts in
    if t.id =? id then rest else record t { reply_to_id = detached id t.reply_to_id } ∷ rest

abbrev is_by : Bytes → Option Tweet → Bool
is_by author_id none = false
is_by author_id (some t) = t.author_id =? author_id

-- DeleteTweet
unfoldable pub delete_tweet : Bytes → Bytes → Tx Tables (Unit {0})
delete_tweet id author_id s =
    if is_by author_id (find_tweet id s.tweets)
    then (
      ok tt,
      record s {
        tweets = tweets_without id s.tweets;
        likes = likes_without id s.likes;
        retweets = retweets_without id s.retweets;
      },
    )
    else (ok tt, s)
