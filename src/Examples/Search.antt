-- ===== src/Examples/Search.antt =====
-- Two tweets in an index that always answers, and an embedding service that is down.
use twitter_microservices.Prelude.{
  ℕ, ◌≡◌, refl, true, none, some, List, [], ◌∷◌, Bytes, codes, ◌=?◌, ℤ, pos, negsuc, arith, take,
  drop, length, ◌≤◌, length-take-le,
}
use twitter_microservices.Shared.Errors.{Result, other, ok, err, non_empty}
use twitter_microservices.Text.{has_prefix}
use twitter_microservices.Shared.Events.{TweetCreatedEvent, TweetDeletedEvent, Unmarshal}
use twitter_microservices.Shared.Kafka.{Message, topic_tweet_created, topic_tweet_deleted}
use twitter_microservices.Shared.Walk.{walk}
use twitter_microservices.Search.Docs.{Vector, TweetDoc}
use twitter_microservices.Search.Query.{Clause, knn, build_tweet_query}
use twitter_microservices.Search.Service.{
  Answers, search_tweets, enrich_tweets, enrich_users, mode_keyword, clamp_limit, decode_cursor,
  next_cursor_for, normalise_mode,
}
use twitter_microservices.Search.Service.Fallback.{
  search_tweets_fallback, enriched_docs, docs_of, user_docs_of,
}
use twitter_microservices.Search.Service.Pages.{
  Ranks, page, search_walk_complete, semantic_search_ends,
}
use twitter_microservices.Search.Handler.{
  handle_search_tweets, parse_limit, default_search_says_fallback,
}
use twitter_microservices.Search.Index.{Server, Docs, KeepsDocs, with_doc, index_tweets}
use twitter_microservices.Search.Indexer.{Env, round}
use twitter_microservices.Search.Indexer.Mirror.{run, replay, run-replay, late_create_revives}

abbrev tweet : Bytes → TweetDoc
tweet id = record {
  id = id;
  author_id = codes "ann";
  body = codes "hello";
  hashtags = [];
  like_count = pos 2;
  retweet_count = pos 0;
  reply_to_id = [];
  media_id = [];
  media_url = [];
  created_at = pos 5;
  vector = [];
}

abbrev ranking : List TweetDoc
ranking = tweet (codes "t1") ∷ tweet (codes "t2") ∷ []

abbrev natural : ℤ → ℕ
natural (pos n) = n
natural (negsuc n) = 0

-- Everything but OpenSearch is down.
abbrev answers : Answers
answers = record {
  embed = λ text. err (other 7);
  search_tweets = λ q. ok (take (natural q.size) (drop (natural q.from) ranking));
  search_users = λ q. ok [];
  hgetall = λ key. err (other 7);
  get_interactions = λ viewer ids. err (other 7);
  batch_get_follower_counts = λ ids. err (other 7);
  get_follow_state = λ viewer ids. err (other 7);
}

search_tweets_fallback_example :
    search_tweets answers (codes "hello") (codes "semantic") (codes "bob") none (pos 1)
    ≡ search_tweets answers (codes "hello") mode_keyword (codes "bob") none (pos 1)
search_tweets_fallback_example =
    search_tweets_fallback answers (codes "hello") (codes "semantic") (codes "bob") none (pos 1)
      (other 7) refl

enriched_docs_example :
    (docs_of (enrich_tweets answers ranking (codes "bob")) ≡ ranking)
    × (user_docs_of (enrich_users answers [] (codes "bob")) ≡ [])
enriched_docs_example = enriched_docs answers ranking [] (codes "bob")

-- The ranking of every clause that has no knn; a knn clause finds one tweet or none.
abbrev ranking_of : Clause → List TweetDoc
ranking_of (knn v (pos k)) = take k (take 1 ranking)
ranking_of (knn v (negsuc k)) = []
ranking_of c = ranking

abbrev searching : Result Vector → Answers
searching vector = record answers {
  embed = λ text. vector;
  search_tweets = λ q. ok (take (natural q.size) (drop (natural q.from) (ranking_of q.clause)));
}

searching-Ranks : (vector : Result Vector) → Ranks (searching vector)
searching-Ranks vector = record {
  ranking = ranking_of;
  slices = λ from size c w. refl;
  nearest = λ v k. length-take-le k (take 1 ranking);
}

search_walk_complete_example :
    walk
      (page (searching (err (other 7))) (codes "hello") (codes "keyword") (codes "bob") (pos 1))
      3
      none
    ≡ some ranking
unfolding build_tweet_query clamp_limit normalise_mode searching-Ranks ◌=?◌
search_walk_complete_example =
    search_walk_complete (searching (err (other 7))) (codes "hello") (codes "keyword") (codes "bob")
      (pos 1) (searching-Ranks (err (other 7))) 3 (omega arith) (omega arith)

semantic_search_ends_example :
    (docs : List TweetDoc) × (walk
        (page (searching (ok (1 ∷ []))) (codes "hello") (codes "semantic") (codes "bob") (pos 1))
        9
        none
      ≡ some docs)
    × (length docs ≤ clamp_limit (pos 1))
unfolding has_prefix
semantic_search_ends_example =
    semantic_search_ends (searching (ok (1 ∷ []))) (codes "hello") (codes "semantic") (codes "bob")
      (pos 1) (searching-Ranks (ok (1 ∷ []))) 1 [] 7 refl refl refl

-- The embedding service works.
abbrev embedding : Answers
embedding = record answers { embed = λ text. ok (1 ∷ []) }

default_search_says_fallback_example :
    handle_search_tweets embedding (codes "hello") [] [] [] (codes "bob")
    ≡ ok (record {
      tweets = enrich_tweets embedding ranking (codes "bob");
      next_cursor =
          next_cursor_for
            (decode_cursor (non_empty []))
            (clamp_limit (parse_limit []))
            (length ranking);
      says_fallback = true;
    })
unfolding decode_cursor non_empty clamp_limit parse_limit build_tweet_query
default_search_says_fallback_example =
    default_search_says_fallback embedding b'h' (codes "ello") [] [] (codes "bob") (1 ∷ []) ranking
      refl refl

-- A server that holds a function from index and ID.
abbrev server : Server
server = record {
  State = Docs;
  index_doc = λ index id body s. (with_doc index id (some body) s, some 201);
  delete_doc = λ index id s. (with_doc index id none s, some 200);
}

server-KeepsDocs : KeepsDocs server
server-KeepsDocs = record {
  docs = λ s. s;
  indexed = λ index id body s status named h fine i j. refl;
  deleted = λ index id s status h fine i j. refl;
}

abbrev created : TweetCreatedEvent
created = record {
  tweet_id = codes "t1";
  author_id = codes "ann";
  body = codes "hello";
  hashtags = [];
  reply_to_id = [];
  media_id = [];
  media_url = [];
  created_at = pos 5;
}

abbrev deleted : TweetDeletedEvent
deleted = record { tweet_id = codes "t1"; author_id = codes "ann" }

abbrev read : Unmarshal
read = record {
  tweet_created = λ b. some created;
  tweet_deleted = λ b. some deleted;
  tweet_liked = λ b. none;
  tweet_retweeted = λ b. none;
  tweet_unretweeted = λ b. none;
  tweet_replied = λ b. none;
  user_created = λ b. none;
  user_followed = λ b. none;
  user_updated = λ b. none;
}

abbrev env : Env
env = record {
  embed = λ text. err (other 7);
  marshal_tweet = λ d. ok d.body;
  marshal_user = λ d. ok d.bio;
  read = read;
  now = pos 9;
}

abbrev message : Bytes → Message
message topic = record {
  topic = topic;
  partition = 0;
  offset = 0;
  key = [];
  value = [];
  headers = [];
}

run-replay_example :
    run server
      ((env, message topic_tweet_created) ∷ (env, message topic_tweet_deleted) ∷ [])
      (λ i j. none)
      index_tweets
      (codes "t1")
    ≡ replay
        ((env, message topic_tweet_created) ∷ (env, message topic_tweet_deleted) ∷ [])
        (λ i j. none)
        index_tweets
        (codes "t1")
unfolding ◌=?◌ round server-KeepsDocs
run-replay_example =
    run-replay server server-KeepsDocs
      ((env, message topic_tweet_created) ∷ (env, message topic_tweet_deleted) ∷ []) (λ i j. none)
      ((λ t e. ground arith, λ t. tt, λ t. tt), ((λ t e. ground arith, λ t. tt, λ t. tt), tt)) refl
      index_tweets (codes "t1")

late_create_revives_example :
    run server
      ((env, message topic_tweet_deleted) ∷ (env, message topic_tweet_created) ∷ [])
      (λ i j. none)
      index_tweets
      (codes "t1")
    ≡ some (codes "hello")
unfolding ◌=?◌ round server-KeepsDocs
late_create_revives_example =
    late_create_revives server server-KeepsDocs env env (message topic_tweet_deleted)
      (message topic_tweet_created) deleted created (codes "hello") (λ i j. none) (refl, refl)
      (refl, refl) refl (refl, ground arith) refl
