-- ===== src/Feed/Snapshots/Renamed.antt =====
-- The snapshots of an author's tweets after the author's profile changed.
use twitter_microservices.Prelude.{
  ℕ, ◌≡◌, ◌∙◌, refl, sym, ap, inl, inr, Bool, true, false, ◌||◌, Option, none, some, List, [], ◌∷◌,
  Bytes, codes, ◌=?◌, if◌then◌else◌, arith, Bool-cases,
}
use twitter_microservices.Shared.Errors.{ok}
use twitter_microservices.Shared.Redis.{Redis, hset}
use twitter_microservices.Shared.Redis.Hashes.{
  KeepsHashes, at_field, set_fields, on_field, run_field,
}
use twitter_microservices.Feed.Ids.{mem?}
use twitter_microservices.Feed.Enrich.{Hash, field, snapshot_to_tweet, or_nil}
use twitter_microservices.Feed.Snapshots.{
  UserSnapshotFields, tweet_snapshot_key, author_tweets_key, author_fields, author_commands,
  update_author_in_tweet_snapshots,
}

abbrev or_empty : Option Bytes → Bytes
or_empty none = []
or_empty (some x) = x

field-at_field : (h : Hash) (f : Bytes) → field h f ≡ or_empty (at_field h f)
unfolding field
field-at_field [] f = refl
field-at_field ((g, y) ∷ h) f = elim (Bool-cases (g =? f)) [
  | inl here ↦ rw here
  | inr there ↦ rw there (field-at_field h f)
]

-- Two tweets have one snapshot key only if they are one tweet.
same_key : (a b : Bytes) → (tweet_snapshot_key a =? tweet_snapshot_key b) ≡ (a =? b)
unfolding ◌=?◌
same_key a b = refl

-- Setting the author's fields twice is setting them once.
set_twice :
    (f : Bytes) (a : UserSnapshotFields) (v : Option Bytes)
    → set_fields f (author_fields a) (set_fields f (author_fields a) v)
      ≡ set_fields f (author_fields a) v
set_twice f a v = ground arith

on_field-author :
    (id x f : Bytes) (fs : List (Bytes × Bytes)) (v : Option Bytes)
    → on_field (tweet_snapshot_key id) f (hset (tweet_snapshot_key x) fs) v
      ≡ (if x =? id then set_fields f fs v else v)
unfolding on_field
on_field-author id x f fs v = ap (λ b. if b then set_fields f fs v else v) (same_key x id)

either_way : {A : Type 0} (b : Bool) (x : A) → (if b then x else x) ≡ x
either_way true x = refl
either_way false x = refl

run_field-author :
    (id f : Bytes) (a : UserSnapshotFields) (ids : List Bytes) (v : Option Bytes)
    → run_field (tweet_snapshot_key id) f (author_commands a ids) v
      ≡ (if mem? id ids then set_fields f (author_fields a) v else v)
unfolding run_field
run_field-author id f a [] v = refl
run_field-author id f a (x ∷ ids) v =
    run_field-author id f a ids
      (on_field (tweet_snapshot_key id) f (hset (tweet_snapshot_key x) (author_fields a)) v)
    ∙ ap (λ (w : Option Bytes). if mem? id ids then set_fields f (author_fields a) w else w)
        (on_field-author id x f (author_fields a) v)
    ∙ settled (x =? id)
  where
    settled :
        (b : Bool)
        → (if mem? id ids
            then set_fields f (author_fields a) (if b then set_fields f (author_fields a) v else v)
            else (if b then set_fields f (author_fields a) v else v))
          ≡ (if b || mem? id ids then set_fields f (author_fields a) v else v)
    settled false = refl
    settled true =
        ap (λ (w : Option Bytes). if mem? id ids then w else set_fields f (author_fields a) v)
          (set_twice f a v)
        ∙ either_way (mem? id ids) (set_fields f (author_fields a) v)

module _ (r : Redis) (k : KeepsHashes r) (user_id id : Bytes) (a : UserSnapshotFields)
    (s : Redis.State r) (x : Bytes) (ids : List Bytes) (h h' : Hash)
    (members : Redis.smembers r (author_tweets_key user_id) s ≡ ok (x ∷ ids))
    (sent : (Redis.exec r (author_commands a (x ∷ ids)) s).1 ≡ none)
    (before : Redis.hgetall r (tweet_snapshot_key id) s ≡ ok h)
    (after : Redis.hgetall r
        (tweet_snapshot_key id)
        (update_author_in_tweet_snapshots r user_id a s)
      ≡ ok h')
    (written : mem? id (x ∷ ids) ≡ true) where
  whole :
      (f : Bytes)
      → k.value (update_author_in_tweet_snapshots r user_id a s) (tweet_snapshot_key id) f
        ≡ run_field
            (tweet_snapshot_key id)
            f
            (author_commands a (x ∷ ids))
            (k.value s (tweet_snapshot_key id) f)
  unfolding update_author_in_tweet_snapshots
  whole f =
      rw (update_author_in_tweet_snapshots, members)
        (k.exec_hashes (author_commands a (x ∷ ids)) s (tweet_snapshot_key id) f sent)

  value_after : (f : Bytes) → at_field h' f ≡ set_fields f (author_fields a) (at_field h f)
  value_after f =
      k.hgetall_hashes (tweet_snapshot_key id) (update_author_in_tweet_snapshots r user_id a s) h'
        after f
      ∙ whole f
      ∙ run_field-author id f a (x ∷ ids) (k.value s (tweet_snapshot_key id) f)
      ∙ ap
          (λ b.
            if b
            then set_fields f (author_fields a) (k.value s (tweet_snapshot_key id) f)
            else k.value s (tweet_snapshot_key id) f)
          written
      ∙ ap (set_fields f (author_fields a))
          (sym (k.hgetall_hashes (tweet_snapshot_key id) s h before f))

  kept :
      (f : Bytes)
      → ((v : Option Bytes) → set_fields f (author_fields a) v ≡ v)
      → field h' f ≡ field h f
  kept f same =
      field-at_field h' f
      ∙ ap or_empty (value_after f ∙ same (at_field h f))
      ∙ sym (field-at_field h f)

  named :
      (f y : Bytes)
      → ((v : Option Bytes) → set_fields f (author_fields a) v ≡ some y)
      → field h' f ≡ y
  named f y set_to = field-at_field h' f ∙ ap or_empty (value_after f ∙ set_to (at_field h f))

  -- After UpdateAuthorInTweetSnapshots every tweet that the author's set names is shown with the new
  -- username, display name and avatar, and with nothing else changed, where the snapshot had its
  -- author and the pipeline and the reads meet no error.
  pub updated_author_shown :
      (c : ℕ) (author_id : Bytes)
      → field h (codes "author_id") ≡ c ∷ author_id
      → snapshot_to_tweet id h' ≡ record (snapshot_to_tweet id h) {
        author = some (record {
          id = c ∷ author_id;
          username = a.username;
          display_name = a.display_name;
          avatar_url = or_nil a.avatar_url;
        });
      }
  unfolding snapshot_to_tweet ◌=?◌
  updated_author_shown c author_id known = rw (
    kept (codes "author_id") (λ v. refl),
    kept (codes "body") (λ v. refl),
    kept (codes "type") (λ v. refl),
    kept (codes "reply_to_id") (λ v. refl),
    kept (codes "media_id") (λ v. refl),
    kept (codes "media_url") (λ v. refl),
    kept (codes "hashtags") (λ v. refl),
    kept (codes "created_at") (λ v. refl),
    known,
    named (codes "author_username") a.username (λ v. refl),
    named (codes "author_display_name") a.display_name (λ v. refl),
    named (codes "author_avatar_url") a.avatar_url (λ v. refl),
  )
