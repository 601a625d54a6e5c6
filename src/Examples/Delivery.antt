-- ===== src/Examples/Delivery.antt =====
-- Messages, pages and items written out.
use mathlib.Core.List.{flatten}
use twitter_microservices.Prelude.{
  ℕ, ltb, ◌+◌, ◌++◌, take, ◌⊎◌, ◌<◌, ◌≡◌, refl, true, false, Option, none, some, List, [], ◌∷◌,
  Bytes, codes, ◌=?◌, if◌then◌else◌, length, pos, arith,
}
use twitter_microservices.Text.Decimal.{parse_int}
use twitter_microservices.Shared.Errors.{other, ok, err}
use twitter_microservices.Shared.Events.{Unmarshal}
use twitter_microservices.Shared.Kafka.{Message, event_id_header, extract_event_id, event_id_of}
use twitter_microservices.Shared.Outbox.{Row, outbox_message}
use twitter_microservices.Feed.Entry.{encode_retweet_entry}
use twitter_microservices.Feed.Page.{cursor_at}
use twitter_microservices.Feed.Consumer.{
  Effect, acted, dead_lettered, marked, committed, round, run,
}
use twitter_microservices.Feed.Consumer.Delivery.{
  Outcome, Above, processed, CoversUpTo, round-Outcome, unchecked_message_lost,
}
use twitter_microservices.Feed.Consumer.Collision.{same_row_id_dropped}
use twitter_microservices.Feed.Service.{
  Sources, cached_entries, following_page, fetch_celeb_feed_entries,
}
use twitter_microservices.Feed.Merge.{merge_dedupe}
use twitter_microservices.Feed.Service.FirstPage.{
  full_page_hides_celebrities, with_cache, short_cache_hides_rest, page_within_limit,
}
use twitter_microservices.Feed.Enrich.{
  at_key, Hash, Snapshots, cached_tweet, assemble, parse_entries, item_sort_at, snapshot_to_tweet,
}
use twitter_microservices.Feed.Enrich.Items.{retweet_item, encoded_retweet_item}

-- No payload can be read.
abbrev pub nothing_reads : Unmarshal
nothing_reads = record {
  tweet_created = λ b. none;
  tweet_deleted = λ b. none;
  tweet_liked = λ b. none;
  tweet_retweeted = λ b. none;
  tweet_unretweeted = λ b. none;
  tweet_replied = λ b. none;
  user_created = λ b. none;
  user_followed = λ b. none;
  user_updated = λ b. none;
}

abbrev message : ℕ → Bytes → Message
message offset id = record {
  topic = codes "user.followed";
  partition = 0;
  offset = offset;
  key = [];
  value = codes "{}";
  headers = record { key = event_id_header; value = id } ∷ [];
}

round-Outcome_example :
    Outcome nothing_reads
      (pos 0)
      (λ id. ok false)
      (message 3 (codes "7"))
      (round nothing_reads (pos 0) (λ id. ok false) (message 3 (codes "7")))
round-Outcome_example = round-Outcome nothing_reads (pos 0) (λ id. ok false) (message 3 (codes "7"))

-- The position of a group that has no other partition.
abbrev furthest : List Effect → ℕ
furthest [] = 0
furthest (e ∷ es) =
    let rest = furthest es in
    elim e [ committed m ↦ if ltb rest (m.offset + 1) then m.offset + 1 else rest | _ ↦ rest ]

furthest_covers : CoversUpTo furthest
furthest_covers [] fs m = ground arith
furthest_covers (acted n actions ∷ es) fs m = furthest_covers es fs m
furthest_covers (dead_lettered n ∷ es) fs m = furthest_covers es fs m
furthest_covers (marked id ∷ es) fs m = furthest_covers es fs m
furthest_covers (committed n ∷ es) fs m = ground (arith, furthest_covers es fs m)

unchecked_message_lost_example :
    (3
      < furthest (
          run nothing_reads
            (pos 0)
            ((message 3 (codes "7"), err (other 1)) ∷ (message 4 (codes "8"), ok true) ∷ [])))
    × Above 3 (
        processed (
          run nothing_reads
            (pos 0)
            ((message 3 (codes "7"), err (other 1)) ∷ (message 4 (codes "8"), ok true) ∷ [])))
unfolding run round extract_event_id event_id_of ◌=?◌ parse_int
unchecked_message_lost_example =
    unchecked_message_lost furthest furthest_covers nothing_reads (pos 0) (message 3 (codes "7"))
      (message 4 (codes "8")) (other 1) ((message 4 (codes "8"), ok true) ∷ []) [] [] refl
      (omega arith, tt) refl (omega arith)

-- A row of the user service's outbox and one of the tweet service's.
abbrev followed_row : Row
followed_row = record {
  id = pos 7;
  topic = codes "user.followed";
  key = [];
  payload = codes "{}";
  trace_id = [];
}

abbrev created_row : Row
created_row = record {
  id = pos 7;
  topic = codes "tweet.created";
  key = [];
  payload = codes "{}";
  trace_id = [];
}

same_row_id_dropped_example :
    round nothing_reads (pos 0) (λ id. ok true) (outbox_message created_row)
    ≡ committed (outbox_message created_row) ∷ []
same_row_id_dropped_example =
    same_row_id_dropped nothing_reads (pos 0) (λ id. ok true) followed_row created_row (omega arith)
      refl refl refl

-- A user's list with two entries, one followed celebrity with one tweet, and no cache or a cached page.
abbrev sources : Option Bytes → Sources
sources cached = record {
  get_cached_following_feed = λ user. cached;
  get_following_feed = λ user cursor limit. ok (codes "T|a" ∷ codes "T|b" ∷ []);
  is_celeb = λ id. true;
  get_following_ids = λ user. ok (codes "star" ∷ []);
  get_recent_tweets = λ id n. ok (codes "c" ∷ []);
  marshal = λ entries. some (codes "json");
  unmarshal_entries = λ b. some (codes "T|a" ∷ []);
  arrival = λ results. results;
}

full_page_hides_celebrities_example :
    following_page (sources none) (codes "ann") none 2
    ≡ ok (
      codes "T|a" ∷ codes "T|b" ∷ [],
      cursor_at (codes "T|a" ∷ codes "T|b" ∷ []) 2,
      some (codes "json"),
    )
unfolding cached_entries ◌=?◌
full_page_hides_celebrities_example =
    full_page_hides_celebrities (sources none) (codes "ann") 2 (codes "T|a" ∷ codes "T|b" ∷ []) refl
      refl (refl, (refl, tt)) refl

-- A user who follows nobody, with a list of two entries of which a request gets what it asks for.
abbrev short_sources : Sources
short_sources = record {
  get_cached_following_feed = λ user. none;
  get_following_feed = λ user cursor limit. ok (take limit (codes "T|a" ∷ codes "T|b" ∷ []));
  is_celeb = λ id. false;
  get_following_ids = λ user. ok [];
  get_recent_tweets = λ id n. ok [];
  marshal = λ entries. some (codes "json");
  unmarshal_entries = λ b. some (codes "T|a" ∷ []);
  arrival = λ results. results;
}

short_cache_hides_rest_example :
    ((shown : List Bytes) × (next : Option Bytes) × (following_page short_sources
          (codes "ann")
          none
          1
        ≡ ok (shown, next, some (codes "json"))))
    × (following_page (with_cache short_sources (codes "ann") (codes "json")) (codes "ann") none 2
        ≡ ok (
          merge_dedupe (codes "T|a" ∷ []) (fetch_celeb_feed_entries short_sources (codes "ann")),
          none,
          none,
        ))
    × ((c : Bytes) × (write : Option Bytes) × (following_page short_sources (codes "ann") none 2
          ≡ ok (codes "T|a" ∷ codes "T|b" ∷ [], some c, write)))
unfolding cached_entries ◌=?◌ merge_dedupe fetch_celeb_feed_entries flatten
short_cache_hides_rest_example =
    short_cache_hides_rest short_sources (codes "ann") 1 2 (codes "T|a" ∷ [])
      (codes "T|a" ∷ codes "T|b" ∷ []) (codes "json") refl refl refl (refl, (refl, tt)) refl refl
      refl (omega arith)

page_within_limit_example :
    ((length (codes "T|a" ∷ codes "T|b" ∷ []) < 2) × (some (codes "T|b") ≡ none))
    ⊎ ((length (codes "T|a" ∷ codes "T|b" ∷ []) ≡ 2)
        × ((before : List Bytes) × (last : Bytes) × (codes "T|a" ∷ codes "T|b" ∷ []
              ≡ before ++ last ∷ [])
            × (some (codes "T|b") ≡ some last)))
unfolding following_page cached_entries cursor_at ◌=?◌ merge_dedupe fetch_celeb_feed_entries flatten
page_within_limit_example =
    page_within_limit short_sources (codes "ann") none 2 (codes "T|a" ∷ codes "T|b" ∷ [])
      (some (codes "T|b")) (some (codes "json")) (omega arith) refl

-- One tweet with a snapshot.
abbrev snapshot : Hash
snapshot = (codes "author_id", codes "eve") ∷ (codes "body", codes "hi") ∷ []

abbrev snapshots : Snapshots
snapshots = record {
  tweets = (codes "tw_1", snapshot) ∷ [];
  counts = [];
  users = [];
  interactions = [];
}

encoded_retweet_item_example :
    (assemble snapshots (
        parse_entries
          (encode_retweet_entry (codes "rt_1") (codes "tw_1") (codes "bob") (pos 5) ∷ []))
      ≡ retweet_item snapshots
          (codes "rt_1")
          (codes "bob")
          (pos 5)
          (snapshot_to_tweet (codes "tw_1") snapshot)
        ∷ assemble snapshots (parse_entries []))
    × ((snapshot_to_tweet (codes "tw_1") snapshot).id ≡ codes "tw_1")
    × (item_sort_at (
          retweet_item snapshots
            (codes "rt_1")
            (codes "bob")
            (pos 5)
            (snapshot_to_tweet (codes "tw_1") snapshot))
        ≡ pos 5)
unfolding cached_tweet at_key ◌=?◌
encoded_retweet_item_example =
    encoded_retweet_item snapshots (codes "rt_1") (codes "tw_1") (codes "bob") (pos 5)
      (snapshot_to_tweet (codes "tw_1") snapshot) [] (omega arith) (omega arith) (omega arith)
      (omega arith) refl
