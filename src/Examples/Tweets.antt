-- ===== src/Examples/Tweets.antt =====
-- A tweet that a user liked, and a page limit that does not fit.
use twitter_microservices.Prelude.{◌≡◌, refl, true, none, [], ◌∷◌, codes, ◌=?◌, pos, negsuc, arith}
use twitter_microservices.Text.Decimal.{format_int}
use twitter_microservices.Shared.Errors.{ok}
use twitter_microservices.Examples.Tx.{committing, committing-IsAtomic}
use twitter_microservices.Tweets.Hashtag.{extract}
use twitter_microservices.Tweets.Limits.{parse_limit, parse_limit_negative}
use twitter_microservices.Tweets.Store.{Tweet, Tables, new_like}
use twitter_microservices.Tweets.Service.{Env, like}
use twitter_microservices.Tweets.Service.Likes.{IsConsistent, like-keeps_counts}

-- The hashtags of a text, in lower case, each once.
extract_test : extract (codes "Loving #Go and #go, #Micro_1!") ≡ codes "#go" ∷ codes "#micro_1" ∷ []
unfolding extract ◌=?◌
extract_test = refl

abbrev tweet : Tweet
tweet = record {
  id = codes "tw_1";
  author_id = codes "eve";
  body = codes "hi #go";
  reply_to_id = none;
  media_id = none;
  media_url = none;
  like_count = 1;
  retweet_count = 0;
  reply_count = 0;
  created_at = pos 5;
}

abbrev tables : Tables
tables = record {
  tweets = tweet ∷ [];
  likes = new_like (codes "ann") (codes "tw_1") ∷ [];
  retweets = [];
  outbox = [];
  last_outbox_id = 0;
}

tables-IsConsistent : IsConsistent tables
unfolding ◌=?◌
tables-IsConsistent = record { counted = (refl, tt); single = (refl, tt) }

abbrev env : Env
env = record {
  exec_tx = committing;
  has_redis = true;
  marshal = record {
    created = λ evt. ok [];
    deleted = λ evt. ok [];
    liked = λ evt. ok evt.liker_id;
    retweeted = λ evt. ok [];
    unretweeted = λ evt. ok [];
    replied = λ evt. ok [];
  };
  now = pos 6;
  new_id = codes "2";
  trace_id = [];
}

like-keeps_counts_example : IsConsistent (like env (codes "bob") (codes "tw_1") tables).1
like-keeps_counts_example =
    like-keeps_counts env (codes "bob") (codes "tw_1") tables committing-IsAtomic
      tables-IsConsistent

parse_limit_negative_example : parse_limit (format_int (pos 4294967295)) ≡ negsuc 0
parse_limit_negative_example = parse_limit_negative 4294967295 (omega arith) (omega arith)
