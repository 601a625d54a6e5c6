-- ===== src/Examples/Snapshots.antt =====
-- Tweet snapshots on a server that keeps its hashes in lists.
use twitter_microservices.Prelude.{
  ◌≡◌, ◌∙◌, refl, ap, inl, inr, none, some, List, [], ◌∷◌, Bytes, codes, ◌=?◌, if◌then◌else◌, arith,
  Bool-cases, bytes_eq_iff, pos,
}
use twitter_microservices.Shared.Errors.{ok}
use twitter_microservices.Shared.Redis.{
  Redis, Command, set, del, lpush, rpush, ltrim, lrem, expire, hset, hincrby, zincrby, sadd, srem,
}
use twitter_microservices.Shared.Redis.Hashes.{
  KeepsHashes, at_field, incremented, set_fields, on_field, run_field,
}
use twitter_microservices.Feed.Enrich.{Hash, or_nil, field, snapshot_to_tweet}
use twitter_microservices.Feed.Snapshots.{
  UserSnapshotFields, TweetFields, set_tweet_snapshot, update_author_in_tweet_snapshots,
  tweet_snapshot_key, get_tweet_snapshot,
}
use twitter_microservices.Feed.Snapshots.Shown.{shown, snapshot_to_tweet-shown}
use twitter_microservices.Shared.Events.{Unmarshal}
use twitter_microservices.Shared.Kafka.{Message, topic_tweet_deleted}
use twitter_microservices.Feed.Dispatch.{Action, dispatch}
use twitter_microservices.Feed.Handlers.{Clients, perform_all}
use twitter_microservices.Feed.Handlers.Deleted.{deleted_message_hides}
use twitter_microservices.Examples.Delivery.{nothing_reads}
use twitter_microservices.Feed.Snapshots.Renamed.{updated_author_shown}

abbrev put_fields : List (Bytes × Bytes) → Hash → Hash
put_fields [] h = h
put_fields (x ∷ fs) h = put_fields fs (x ∷ h)

abbrev on_hash : Bytes → Command → Hash → Hash
on_hash k (hset j fs) h = if j =? k then put_fields fs h else h
on_hash k (hincrby j g d) h = if j =? k then (g, incremented (at_field h g) d) ∷ h else h
on_hash k (del j) h = if j =? k then [] else h
on_hash k (set j x ttl) h = if j =? k then [] else h
on_hash k c h = h

abbrev run_hash : Bytes → List Command → Hash → Hash
run_hash k [] h = h
run_hash k (c ∷ cs) h = run_hash k cs (on_hash k c h)

abbrev server : Redis
server = record {
  State = Bytes → Hash;
  exec = λ cs s. (λ k. run_hash k cs (s k), none);
  exists_key = λ k s. ok 0;
  get = λ k s. ok [];
  hget_int64 = λ k f s. (pos 0, none);
  hget = λ k f s. elim (at_field (s k) f) [ none ↦ ok [] | some x ↦ ok x ];
  smembers = λ k s. ok (codes "tw_1" ∷ []);
  hgetall = λ k s. ok (s k);
  lrange = λ k a b s. ok [];
}

put_fields-set_fields :
    (fs : List (Bytes × Bytes)) (h : Hash) (f : Bytes)
    → at_field (put_fields fs h) f ≡ set_fields f fs (at_field h f)
put_fields-set_fields [] h f = refl
put_fields-set_fields ((g, x) ∷ fs) h f = put_fields-set_fields fs ((g, x) ∷ h) f

on_hash-on_field :
    (k f : Bytes) (c : Command) (h : Hash)
    → at_field (on_hash k c h) f ≡ on_field k f c (at_field h f)
unfolding on_field
on_hash-on_field k f (hset j fs) h = elim (Bool-cases (j =? k)) [
  | inl here ↦ rw here (put_fields-set_fields fs h f)
  | inr there ↦ rw there
]
on_hash-on_field k f (hincrby j g d) h = elim (Bool-cases (j =? k)) [
  | inl here ↦ elim (Bool-cases (g =? f)) [
    | inl same ↦
        rw (here, same) (ap (λ x. some (incremented (at_field h x) d)) ((bytes_eq_iff g f).0 same))
    | inr other ↦ rw (here, other)
  ]
  | inr there ↦ rw there
]
on_hash-on_field k f (del j) h = elim (Bool-cases (j =? k)) [
  | inl here ↦ rw here
  | inr there ↦ rw there
]
on_hash-on_field k f (set j x ttl) h = elim (Bool-cases (j =? k)) [
  | inl here ↦ rw here
  | inr there ↦ rw there
]
on_hash-on_field k f (lpush j v) h = refl
on_hash-on_field k f (rpush j v) h = refl
on_hash-on_field k f (ltrim j a b) h = refl
on_hash-on_field k f (lrem j n v) h = refl
on_hash-on_field k f (expire j t) h = refl
on_hash-on_field k f (zincrby j w v) h = refl
on_hash-on_field k f (sadd j v) h = refl
on_hash-on_field k f (srem j v) h = refl

run_hash-run_field :
    (k f : Bytes) (cs : List Command) (h : Hash)
    → at_field (run_hash k cs h) f ≡ run_field k f cs (at_field h f)
unfolding run_field
run_hash-run_field k f [] h = refl
run_hash-run_field k f (c ∷ cs) h =
    run_hash-run_field k f cs (on_hash k c h) ∙ ap (run_field k f cs) (on_hash-on_field k f c h)

server_keeps : KeepsHashes server
server_keeps = record {
  value = λ s k f. at_field (s k) f;
  exec_hashes = λ cs s k f sent. run_hash-run_field k f cs (s k);
  hgetall_hashes = λ k s h answer f. cc;
}

abbrev fields : TweetFields
fields = record {
  author_id = codes "eve";
  body = codes "hi";
  reply_to_id = [];
  media_id = [];
  media_url = [];
  hashtags = codes "go" ∷ codes "db" ∷ [];
  created_at = pos 7;
}

abbrev eve : UserSnapshotFields
eve = record { username = codes "eve"; display_name = codes "Eve"; avatar_url = [] }

abbrev renamed : UserSnapshotFields
renamed = record { username = codes "eva"; display_name = codes "Eva"; avatar_url = codes "u" }

abbrev empty : Bytes → Hash
empty k = []

abbrev written : Bytes → Hash
written = set_tweet_snapshot server (codes "tw_1") fields eve empty

snapshot_to_tweet-shown_example :
    snapshot_to_tweet (codes "tw_1") (written (tweet_snapshot_key (codes "tw_1")))
    ≡ shown (codes "tw_1") fields eve
unfolding ◌=?◌ set_tweet_snapshot
snapshot_to_tweet-shown_example =
    snapshot_to_tweet-shown server server_keeps (codes "tw_1") fields eve empty
      (written (tweet_snapshot_key (codes "tw_1"))) refl refl (ground arith)
      ((omega arith, (omega arith, tt)), ((omega arith, (omega arith, tt)), tt))
      (ground arith, (ground arith, tt)) (omega arith)

updated_author_shown_example :
    snapshot_to_tweet (codes "tw_1") (
      update_author_in_tweet_snapshots server
        (codes "eve")
        renamed
        written
        (tweet_snapshot_key (codes "tw_1")))
    ≡ record (snapshot_to_tweet (codes "tw_1") (written (tweet_snapshot_key (codes "tw_1")))) {
      author = some (record {
        id = codes "eve";
        username = renamed.username;
        display_name = renamed.display_name;
        avatar_url = or_nil renamed.avatar_url;
      });
    }
unfolding ◌=?◌ set_tweet_snapshot update_author_in_tweet_snapshots field
updated_author_shown_example =
    updated_author_shown server server_keeps (codes "eve") (codes "tw_1") renamed written
      (codes "tw_1") [] (written (tweet_snapshot_key (codes "tw_1")))
      (update_author_in_tweet_snapshots server (codes "eve") renamed written
        (tweet_snapshot_key (codes "tw_1")))
      refl refl refl refl refl b'e' (codes "ve") refl

abbrev deletes : Unmarshal
deletes = record nothing_reads {
  tweet_deleted = λ b. some (record { tweet_id = codes "tw_1"; author_id = codes "eve" });
}

abbrev clients : Clients
clients = record { get_follower_ids = λ id. ok []; get_recent_tweets = none; now = pos 9 }

abbrev deletion : Message
deletion = record {
  topic = topic_tweet_deleted;
  partition = 0;
  offset = 1;
  key = [];
  value = codes "{}";
  headers = [];
}

deleted_message_hides_example :
    (actions : List Action) × (dispatch deletes (pos 9) deletion ≡ ok actions)
    × (get_tweet_snapshot server (codes "tw_1") (perform_all server clients actions written) ≡ none)
deleted_message_hides_example =
    deleted_message_hides server server_keeps clients deletes (pos 9) deletion
      (record { tweet_id = codes "tw_1"; author_id = codes "eve" }) written refl refl refl
