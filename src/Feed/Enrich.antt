-- ===== src/Feed/Enrich.antt =====
-- enrichEntries of apps/feed-service/internal/feed/service.go, with snapshotToTweet,
-- userSnapshotToAuthor, parseInt32, setToSlice and itemSortAt. A Redis hash is a list of fields; a time
-- is its Unix seconds. The Redis and gRPC reads are parameters; an error of GetInteractions gives what
-- the client returns beside it.
pub mod Items
use twitter_microservices.Prelude.{
  ℕ, Bool, true, false, Option, none, some, List, [], ◌∷◌, ◌++◌, Bytes, codes, ◌=?◌, if◌then◌else◌,
  ℤ, pos, negsuc,
}
use twitter_microservices.Text.{split}
use twitter_microservices.Text.Decimal.{Parsed, parse_int}
use twitter_microservices.Feed.Entry.{FeedEntry, parse_feed_entry}
use twitter_microservices.Feed.Ids.{mem?}

abbrev pub Hash : Type 0
Hash = List (Bytes × Bytes)

-- A missing field is the empty text.
unfoldable pub field : Hash → Bytes → Bytes
field [] k = []
field ((j, v) ∷ h) k = if j =? k then v else field h k

-- The value under a key of a Go map.
unfoldable pub at_key {ℓ} : {A : Type ℓ} → List (Bytes × A) → Bytes → Option A
at_key [] k = none
at_key ((j, v) ∷ m) k = if j =? k then some v else at_key m k

-- tweetclient.Author
pub record Author : Type 0 where
  pub id : Bytes
  pub username : Bytes
  pub display_name : Bytes
  pub avatar_url : Option Bytes

-- tweetclient.Tweet; `type_of` is its Type.
pub record Tweet : Type 0 where
  pub id : Bytes
  pub type_of : Bytes
  pub author : Option Author
  pub author_id : Bytes
  pub body : Bytes
  pub reply_to_id : Option Bytes
  pub media_id : Option Bytes
  pub media_url : Option Bytes
  pub like_count : ℤ
  pub retweet_count : ℤ
  pub reply_count : ℤ
  pub hashtags : List Bytes
  pub is_liked : Bool
  pub is_retweeted : Bool
  pub created_at : ℤ

pub record RetweetWrapper : Type 0 where
  pub id : Bytes
  pub retweeter : Author
  pub created_at : ℤ

pub record FeedItem : Type 0 where
  pub kind : Bytes
  pub tweet : Tweet
  pub retweet : Option RetweetWrapper

-- tweetclient.TweetInteraction
pub record TweetInteraction : Type 0 where
  pub is_liked : Bool
  pub is_retweeted : Bool

-- A pointer to the text, or nil where it is empty.
abbrev pub or_nil : Bytes → Option Bytes
or_nil [] = none
or_nil (c ∷ s) = some (c ∷ s)

-- The zero time.Time, in Unix seconds.
abbrev pub zero_time : ℤ
zero_time = negsuc 62135596799

-- parseInt32: the error is dropped, and the value of ParseInt kept.
unfoldable pub parse_int32 : Bytes → ℤ
parse_int32 [] = pos 0
parse_int32 (c ∷ s) = (parse_int 32 (c ∷ s)).value

abbrev pub time_or_zero : Parsed ℤ → ℤ
time_or_zero p = elim p.error [ none ↦ p.value | some e ↦ zero_time ]

abbrev pub created_at_of : Bytes → ℤ
created_at_of [] = zero_time
created_at_of (c ∷ s) = time_or_zero (parse_int 64 (c ∷ s))

abbrev pub hashtags_of : Bytes → List Bytes
hashtags_of [] = []
hashtags_of (c ∷ s) = split b',' (c ∷ s)

abbrev pub type_or_tweet : Bytes → Bytes
type_or_tweet [] = codes "tweet"
type_or_tweet (c ∷ s) = c ∷ s

abbrev pub embedded_author : Hash → Bytes → Option Author
embedded_author f [] = none
embedded_author f (c ∷ s) = some (record {
  id = c ∷ s;
  username = field f (codes "author_username");
  display_name = field f (codes "author_display_name");
  avatar_url = or_nil (field f (codes "author_avatar_url"));
})

-- snapshotToTweet
unfoldable pub snapshot_to_tweet : Bytes → Hash → Tweet
unfolding field
snapshot_to_tweet id f = record {
  id = id;
  type_of = type_or_tweet (field f (codes "type"));
  author = embedded_author f (field f (codes "author_id"));
  author_id = field f (codes "author_id");
  body = field f (codes "body");
  reply_to_id = or_nil (field f (codes "reply_to_id"));
  media_id = or_nil (field f (codes "media_id"));
  media_url = or_nil (field f (codes "media_url"));
  like_count = pos 0;
  retweet_count = pos 0;
  reply_count = pos 0;
  hashtags = hashtags_of (field f (codes "hashtags"));
  is_liked = false;
  is_retweeted = false;
  created_at = created_at_of (field f (codes "created_at"));
}

-- userSnapshotToAuthor
unfoldable pub user_snapshot_to_author : Bytes → Option Hash → Author
unfolding field
user_snapshot_to_author id none = record {
  id = id;
  username = [];
  display_name = [];
  avatar_url = none;
}
user_snapshot_to_author id (some snap) = record {
  id = id;
  username = field snap (codes "username");
  display_name = field snap (codes "display_name");
  avatar_url = or_nil (field snap (codes "avatar_url"));
}

abbrev with_counts : Tweet → Option Hash → Tweet
with_counts t none = t
with_counts t (some c) = record t {
  like_count = parse_int32 (field c (codes "like_count"));
  retweet_count = parse_int32 (field c (codes "retweet_count"));
  reply_count = parse_int32 (field c (codes "reply_count"));
}

abbrev with_interaction : Tweet → Option TweetInteraction → Tweet
with_interaction t none = t
with_interaction t (some ia) = record t { is_liked = ia.is_liked; is_retweeted = ia.is_retweeted }

-- The first loop of enrichEntries.
unfoldable pub parse_entries : List Bytes → List FeedEntry
parse_entries [] = []
parse_entries (raw ∷ rest) =
    let more = parse_entries rest in elim (parse_feed_entry raw) [ none ↦ more | some e ↦ e ∷ more ]

abbrev is_retweet : FeedEntry → Bool
is_retweet e = e.kind =? codes "retweet"

-- setToSlice of the set of the IDs: no repetition, and no empty ID.
abbrev id_set : List Bytes → List Bytes
id_set [] = []
id_set (x ∷ xs) =
    let rest = id_set xs in if x =? [] then rest else if mem? x xs then rest else x ∷ rest

abbrev tweet_ids : List FeedEntry → List Bytes
tweet_ids [] = []
tweet_ids (e ∷ es) = e.tweet_id ∷ tweet_ids es

abbrev retweeter_ids : List FeedEntry → List Bytes
retweeter_ids [] = []
retweeter_ids (e ∷ es) =
    if is_retweet e then e.retweeter_id ∷ retweeter_ids es else retweeter_ids es

-- The reads of one request: the three pipelines and the gRPC call.
pub record Reads : Type 0 where
  pub pipeline_tweet_snapshots : List Bytes → List (Bytes × Hash)
  pub pipeline_tweet_counts : List Bytes → List (Bytes × Hash)
  pub pipeline_user_snapshots : List Bytes → List (Bytes × Hash)
  pub get_interactions : List Bytes → Bytes → List (Bytes × TweetInteraction)

abbrev unless_empty {ℓ κ} : {A : Type ℓ} {B : Type κ} → List A → List B → List B
unless_empty [] m = []
unless_empty (x ∷ xs) m = m

-- The maps that are read for the parsed entries.
pub record Snapshots : Type 0 where
  pub tweets : List (Bytes × Hash)
  pub counts : List (Bytes × Hash)
  pub users : List (Bytes × Hash)
  pub interactions : List (Bytes × TweetInteraction)

abbrev read_snapshots : Reads → List FeedEntry → Bytes → Snapshots
read_snapshots r parsed viewer_id = record {
  tweets = r.pipeline_tweet_snapshots (id_set (tweet_ids parsed));
  counts = r.pipeline_tweet_counts (id_set (tweet_ids parsed));
  users =
      unless_empty (id_set (retweeter_ids parsed))
        (r.pipeline_user_snapshots (id_set (retweeter_ids parsed)));
  interactions = unless_empty viewer_id (r.get_interactions (id_set (tweet_ids parsed)) viewer_id);
}

-- An entry of tweetCache.
unfoldable pub cached_tweet : Snapshots → Bytes → Option Tweet
unfolding snapshot_to_tweet parse_int32
cached_tweet s id = elim (at_key s.tweets id) [
  | none ↦ none
  | some snap ↦ some (
      with_interaction (with_counts (snapshot_to_tweet id snap) (at_key s.counts id))
        (at_key s.interactions id))
]

abbrev item : Snapshots → FeedEntry → Tweet → FeedItem
item s e t =
    if is_retweet e
    then record {
      kind = codes "retweet";
      tweet = t;
      retweet = some (record {
        id = e.retweet_id;
        retweeter = user_snapshot_to_author e.retweeter_id (at_key s.users e.retweeter_id);
        created_at = e.created_at;
      });
    }
    else record { kind = codes "tweet"; tweet = t; retweet = none }

-- The last loop of enrichEntries.
unfoldable pub assemble : Snapshots → List FeedEntry → List FeedItem
unfolding cached_tweet user_snapshot_to_author
assemble s [] = []
assemble s (e ∷ es) =
    let rest = assemble s es in
    elim (cached_tweet s e.tweet_id) [ none ↦ rest | some t ↦ item s e t ∷ rest ]

-- enrichEntries
unfoldable pub enrich_entries : Reads → List Bytes → Bytes → List FeedItem
unfolding parse_entries assemble
enrich_entries r entries viewer_id =
    let parsed = parse_entries entries in assemble (read_snapshots r parsed viewer_id) parsed

-- itemSortAt
unfoldable pub item_sort_at : FeedItem → ℤ
item_sort_at i =
    if i.kind =? codes "retweet"
    then elim i.retweet [ some w ↦ w.created_at | none ↦ i.tweet.created_at ]
    else i.tweet.created_at
