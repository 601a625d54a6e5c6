-- ===== src/Feed/Entry.antt =====
-- The entries of the `following:*` lists: EncodeTweetEntry, EncodeRetweetEntry and ParseFeedEntry of
-- apps/feed-service/internal/consumer/consumer.go.
pub mod RoundTrip
use twitter_microservices.Prelude.{
  Bool, true, false, Option, none, some, List, [], ◌∷◌, ◌++◌, Bytes, codes, ◌=?◌, if◌then◌else◌, ℤ,
  pos,
}
use twitter_microservices.Text.{split}
use twitter_microservices.Text.Decimal.{format_int, parse_int}

abbrev pub feed_entry_tweet : Bytes
feed_entry_tweet = codes "T"

abbrev pub feed_entry_retweet : Bytes
feed_entry_retweet = codes "R"

unfoldable pub encode_tweet_entry : Bytes → Bytes
encode_tweet_entry tweet_id = feed_entry_tweet ++ (b'|' ∷ tweet_id)

unfoldable pub encode_retweet_entry : Bytes → Bytes → Bytes → ℤ → Bytes
encode_retweet_entry retweet_id original_tweet_id retweeter_id created_at =
    feed_entry_retweet
    ++ (b'|'
        ∷ (retweet_id
            ++ (b'|'
                ∷ (original_tweet_id
                    ++ (b'|' ∷ (retweeter_id ++ (b'|' ∷ format_int created_at)))))))

pub record FeedEntry : Type 0 where
  pub kind : Bytes
  pub retweet_id : Bytes
  pub tweet_id : Bytes
  pub retweeter_id : Bytes
  pub created_at : ℤ

abbrev pub tweet_entry : Bytes → FeedEntry
tweet_entry tweet_id = record {
  kind = codes "tweet";
  retweet_id = [];
  tweet_id = tweet_id;
  retweeter_id = [];
  created_at = pos 0;
}

abbrev pub retweet_entry : Bytes → Bytes → Bytes → ℤ → FeedEntry
retweet_entry retweet_id tweet_id retweeter_id ts = record {
  kind = codes "retweet";
  retweet_id = retweet_id;
  tweet_id = tweet_id;
  retweeter_id = retweeter_id;
  created_at = ts;
}

-- The case `feedEntryTweet` on the parts behind the first.
unfoldable pub parse_tweet : List Bytes → Option FeedEntry
parse_tweet (id ∷ []) = if id =? [] then none else some (tweet_entry id)
parse_tweet _ = none

-- The case `feedEntryRetweet` on the parts behind the first.
unfoldable pub parse_retweet : List Bytes → Option FeedEntry
parse_retweet (rt ∷ tw ∷ by ∷ at ∷ []) =
    let ts = parse_int 64 at in
    elim ts.error [ some _ ↦ none | none ↦ some (retweet_entry rt tw by ts.value) ]
parse_retweet _ = none

abbrev dispatch_kind : List Bytes → Option FeedEntry
dispatch_kind [] = none
dispatch_kind (kind ∷ rest) =
    if kind =? feed_entry_tweet
    then parse_tweet rest
    else if kind =? feed_entry_retweet
    then parse_retweet rest
    else none

-- The pair `(FeedEntry, bool)` is an option.
unfoldable pub parse_feed_entry : Bytes → Option FeedEntry
unfolding parse_tweet parse_retweet
parse_feed_entry raw = dispatch_kind (split b'|' raw)
