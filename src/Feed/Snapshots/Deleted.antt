-- ===== src/Feed/Snapshots/Deleted.antt =====
-- The snapshot of a tweet that was deleted.
use twitter_microservices.Prelude.{
  ◌≡◌, ◌≢◌, ◌∙◌, refl, sym, ap, Option, none, some, [], ◌∷◌, Bytes, codes, if◌then◌else◌, arith,
  bytes_eq_refl,
}
use twitter_microservices.Shared.Errors.{Result, ok, err}
use twitter_microservices.Shared.Redis.{Redis, del}
use twitter_microservices.Shared.Redis.Hashes.{KeepsHashes, at_field, on_field, run_field}
use twitter_microservices.Feed.Enrich.{Hash}
use twitter_microservices.Feed.Snapshots.{
  tweet_snapshot_key, forget, or_miss, get_tweet_snapshot, delete_tweet_snapshot,
}

some_not_none : (x : Bytes) → some x ≢ none
some_not_none x e = ground arith

-- An answer whose fields are all absent is a miss.
or_miss-absent :
    (answer : Result Hash)
    → ((h : Hash) → answer ≡ ok h → (f : Bytes) → at_field h f ≡ none)
    → or_miss answer ≡ none
or_miss-absent (err e) absent = refl
or_miss-absent (ok []) absent = refl
or_miss-absent (ok ((g, x) ∷ h)) absent =
    let gone = absent ((g, x) ∷ h) refl g in
    absurd (
      some_not_none x (ap (λ b. if b then some x else at_field h g) (sym (bytes_eq_refl g)) ∙ gone))

run_field-forget :
    (key f id : Bytes) (author : Result Bytes) (v : Option Bytes)
    → run_field key f (forget id author) v ≡ v
unfolding run_field on_field
run_field-forget key f id (err e) v = refl
run_field-forget key f id (ok []) v = refl
run_field-forget key f id (ok (c ∷ author_id)) v = refl

run_field-deleted :
    (key f id : Bytes) (author : Result Bytes) (v : Option Bytes)
    → run_field key f (del key ∷ forget id author) v ≡ none
unfolding run_field on_field
run_field-deleted key f id author v =
    rw (run_field, on_field, bytes_eq_refl key) (run_field-forget key f id author none)

module _ (r : Redis) (k : KeepsHashes r) (id : Bytes) (s : Redis.State r) where
  -- Behind a DeleteTweetSnapshot whose pipeline meets no error GetTweetSnapshot finds no tweet, whether
  -- the author of the tweet was known or not.
  pub deleted_not_found :
      (Redis.exec r
          (del (tweet_snapshot_key id)
            ∷ forget id (Redis.hget r (tweet_snapshot_key id) (codes "author_id") s))
          s).1
        ≡ none
      → get_tweet_snapshot r id (delete_tweet_snapshot r id s) ≡ none
  unfolding get_tweet_snapshot delete_tweet_snapshot
  deleted_not_found sent =
      or_miss-absent (Redis.hgetall r (tweet_snapshot_key id) (delete_tweet_snapshot r id s))
        (λ h answer f.
          k.hgetall_hashes (tweet_snapshot_key id) (delete_tweet_snapshot r id s) h answer f
          ∙ k.exec_hashes _ s (tweet_snapshot_key id) f sent
          ∙ run_field-deleted (tweet_snapshot_key id) f id
              (Redis.hget r (tweet_snapshot_key id) (codes "author_id") s)
              (k.value s (tweet_snapshot_key id) f))
