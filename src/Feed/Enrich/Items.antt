-- ===== src/Feed/Enrich/Items.antt =====
-- Which items a page gets.
use twitter_microservices.Prelude.{
  ◌≡◌, refl, ap₂, Option, none, some, List, [], ◌∷◌, map, Bytes, codes, ◌=?◌, arith, ℤ, IsInt64,
  Option-cases, inl, inr,
}
use twitter_microservices.Text.{Lacks}
use twitter_microservices.Feed.Entry.{FeedEntry, encode_retweet_entry}
use twitter_microservices.Feed.Entry.RoundTrip.{parse-encode_retweet}
use twitter_microservices.Feed.Enrich.{
  Hash, Tweet, TweetInteraction, FeedItem, Snapshots, at_key, snapshot_to_tweet,
  user_snapshot_to_author, cached_tweet, with_counts, with_interaction, assemble, item,
  item_sort_at, parse_entries,
}

-- The tweets of the entries, in order, without those that have no snapshot.
pub live_ids : Snapshots → List FeedEntry → List Bytes
live_ids s [] = []
live_ids s (e ∷ es) = elim (at_key s.tweets e.tweet_id) [
  | none ↦ live_ids s es
  | some snap ↦ e.tweet_id ∷ live_ids s es
]

id-item :
    (s : Snapshots) (e : FeedEntry) (snap : Hash) (c : Option Hash) (ia : Option TweetInteraction)
    → (item s e (with_interaction (with_counts (snapshot_to_tweet e.tweet_id snap) c) ia)).tweet.id
      ≡ e.tweet_id
unfolding snapshot_to_tweet
id-item s e snap c ia = ground arith

id-cached_tweet : (s : Snapshots) (id : Bytes) (t : Tweet) → cached_tweet s id ≡ some t → t.id ≡ id
unfolding cached_tweet snapshot_to_tweet
id-cached_tweet s id t h = ground arith

-- The items of a page are, in the order of the entries, those whose original still has a snapshot,
-- each with the tweet that its entry names.
pub ids-assemble :
    (s : Snapshots) (es : List FeedEntry) → map (λ i. i.tweet.id) (assemble s es) ≡ live_ids s es
unfolding assemble live_ids
ids-assemble s [] = refl
ids-assemble s (e ∷ es) = elim (Option-cases (at_key s.tweets e.tweet_id)) [
  | inl gone ↦ rw (gone, assemble, live_ids) (ids-assemble s es)
  | inr (snap, there) ↦
      rw (there, assemble, live_ids)
        (ap₂ (λ x xs. x ∷ xs)
          (id-item s e snap (at_key s.counts e.tweet_id) (at_key s.interactions e.tweet_id))
          (ids-assemble s es))
]

-- The item of a retweet entry.
abbrev pub retweet_item : Snapshots → Bytes → Bytes → ℤ → Tweet → FeedItem
retweet_item s rt by at t = record {
  kind = codes "retweet";
  tweet = t;
  retweet = some (record {
    id = rt;
    retweeter = user_snapshot_to_author by (at_key s.users by);
    created_at = at;
  });
}

-- A retweet that was fanned out, with IDs without separator and an int64 time, whose original has
-- a snapshot, becomes one item with the retweet's ID, the retweeter, the time and the original.
pub encoded_retweet_item :
    (s : Snapshots) (rt tw by : Bytes) (at : ℤ) (t : Tweet) (rest : List Bytes)
    → Lacks b'|' rt
    → Lacks b'|' tw
    → Lacks b'|' by
    → IsInt64 at
    → cached_tweet s tw ≡ some t
    → (assemble s (parse_entries (encode_retweet_entry rt tw by at ∷ rest))
        ≡ retweet_item s rt by at t ∷ assemble s (parse_entries rest))
      × (t.id ≡ tw)
      × (item_sort_at (retweet_item s rt by at t) ≡ at)
encoded_retweet_item s rt tw by at t rest h₁ h₂ h₃ h₄ there = (
  unfold parse_entries ◌=?◌ in
      rw (parse-encode_retweet rt tw by at h₁ h₂ h₃ h₄, parse_entries)
        (unfold assemble in rw (there, assemble)),
  id-cached_tweet s tw t there,
  unfold item_sort_at ◌=?◌ in refl,
)
