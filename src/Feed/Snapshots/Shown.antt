-- ===== src/Feed/Snapshots/Shown.antt =====
-- A snapshot as the read path shows it.
use twitter_microservices.Prelude.{
  ◌≡◌, ◌≢◌, ◌∙◌, refl, ap, inl, inr, false, Option, none, some, List, [], ◌∷◌, Bytes, codes, ◌=?◌,
  arith, All, ℤ, pos, IsInt64, bytes_eq_refl, Bool-cases,
}
use twitter_microservices.Text.{join, split, split-part, split-last, Lacks}
use twitter_microservices.Text.Decimal.{parse_int, format_int}
use twitter_microservices.Text.Decimal.RoundTrip.{parse_int-format_int}
use twitter_microservices.Shared.Errors.{ok}
use twitter_microservices.Shared.Redis.{Redis}
use twitter_microservices.Shared.Redis.Hashes.{
  KeepsHashes, at_field, set_fields, on_field, run_field,
}
use twitter_microservices.Feed.Enrich.{
  Hash, Tweet, field, snapshot_to_tweet, hashtags_of, created_at_of, or_nil, type_or_tweet,
  embedded_author,
}
use twitter_microservices.Feed.Snapshots.{
  UserSnapshotFields, TweetFields, tweet_snapshot_key, tweet_type, snapshot_fields,
  snapshot_commands, set_tweet_snapshot,
}

field-at_field : (h : Hash) (f x : Bytes) → at_field h f ≡ some x → field h f ≡ x
unfolding field
field-at_field [] f x e = absurd (ground arith)
field-at_field ((g, y) ∷ h) f x e = elim (Bool-cases (g =? f)) [
  | inl here ↦ ground arith
  | inr there ↦ rw there (field-at_field h f x (ground arith))
]

split-join :
    (tag : Bytes) (tags : List Bytes)
    → All (Lacks b',') (tag ∷ tags)
    → split b',' (join b',' (tag ∷ tags)) ≡ tag ∷ tags
split-join tag [] (h, hs) = split-last b',' tag h
split-join tag (g ∷ tags) (h, hs) =
    split-part b',' tag (join b',' (g ∷ tags)) h
    ∙ ap (λ (q : List Bytes). tag ∷ q) (split-join g tags hs)

-- The hashtags are read back, where the first is not empty and none holds a comma.
hashtags_of-join :
    (tags : List Bytes)
    → All (Lacks b',') tags
    → All (λ g. g ≢ []) tags
    → hashtags_of (join b',' tags) ≡ tags
hashtags_of-join [] h n = refl
hashtags_of-join ([] ∷ tags) h (n, ns) = absurd (n refl)
hashtags_of-join ((c ∷ tag) ∷ []) h n = split-join (c ∷ tag) [] h
hashtags_of-join ((c ∷ tag) ∷ g ∷ tags) h n = split-join (c ∷ tag) (g ∷ tags) h

created_at_of-parsed :
    (s : Bytes) (at : ℤ)
    → parse_int 64 s ≡ record { value = at; error = none }
    → created_at_of s ≡ at
created_at_of-parsed [] at e = unfold parse_int in cc
created_at_of-parsed (c ∷ s) at e = rw (created_at_of, e)

type_kept : (reply_to_id : Bytes) → type_or_tweet (tweet_type reply_to_id) ≡ tweet_type reply_to_id
type_kept [] = refl
type_kept (c ∷ s) = refl

snapshot-value :
    (f id : Bytes) (t : TweetFields) (a : UserSnapshotFields) (v : Option Bytes)
    → run_field (tweet_snapshot_key id) f (snapshot_commands id t a) v
      ≡ set_fields f (snapshot_fields t a) v
unfolding run_field on_field
snapshot-value f id t a v = rw (bytes_eq_refl (tweet_snapshot_key id))

embedded_known :
    (h : Hash) (id username display_name avatar_url : Bytes)
    → id ≢ []
    → field h (codes "author_username") ≡ username
    → field h (codes "author_display_name") ≡ display_name
    → field h (codes "author_avatar_url") ≡ avatar_url
    → embedded_author h id
      ≡ some (record {
        id = id;
        username = username;
        display_name = display_name;
        avatar_url = or_nil avatar_url;
      })
embedded_known h [] u d v n e₁ e₂ e₃ = absurd (n refl)
embedded_known h (c ∷ s) u d v n e₁ e₂ e₃ = rw (e₁, e₂, e₃)

-- The tweet that a snapshot is of, with the author's fields at that time.
abbrev pub shown : Bytes → TweetFields → UserSnapshotFields → Tweet
shown id t a = record {
  id = id;
  type_of = tweet_type t.reply_to_id;
  author = some (record {
    id = t.author_id;
    username = a.username;
    display_name = a.display_name;
    avatar_url = or_nil a.avatar_url;
  });
  author_id = t.author_id;
  body = t.body;
  reply_to_id = or_nil t.reply_to_id;
  media_id = or_nil t.media_id;
  media_url = or_nil t.media_url;
  like_count = pos 0;
  retweet_count = pos 0;
  reply_count = pos 0;
  hashtags = t.hashtags;
  is_liked = false;
  is_retweeted = false;
  created_at = t.created_at;
}

module _ (r : Redis) (k : KeepsHashes r) (id : Bytes) (t : TweetFields) (a : UserSnapshotFields)
    (s : Redis.State r) (h : Hash) (sent : (Redis.exec r (snapshot_commands id t a) s).1 ≡ none)
    (answer : Redis.hgetall r (tweet_snapshot_key id) (set_tweet_snapshot r id t a s) ≡ ok h) where
  read :
      (f x : Bytes)
      → set_fields f (snapshot_fields t a) (k.value s (tweet_snapshot_key id) f) ≡ some x
      → field h f ≡ x
  unfolding set_tweet_snapshot
  read f x e = field-at_field h f x (
      k.hgetall_hashes (tweet_snapshot_key id) (set_tweet_snapshot r id t a s) h answer f
      ∙ k.exec_hashes (snapshot_commands id t a) s (tweet_snapshot_key id) f sent
      ∙ snapshot-value f id t a (k.value s (tweet_snapshot_key id) f)
      ∙ e)

  -- What the read path makes of the hash that SetTweetSnapshot wrote is the tweet that was written,
  -- with the author's fields, whatever the hash held before, where the pipeline and the read meet no
  -- error, the author ID and the hashtags are not empty, no hashtag holds a comma and the time is an
  -- int64.
  pub snapshot_to_tweet-shown :
      t.author_id ≢ []
      → All (Lacks b',') t.hashtags
      → All (λ g. g ≢ []) t.hashtags
      → IsInt64 t.created_at
      → snapshot_to_tweet id h ≡ shown id t a
  unfolding snapshot_to_tweet ◌=?◌ snapshot_fields
  snapshot_to_tweet-shown known commas empties time = rw (
    read (codes "author_id") t.author_id refl,
    read (codes "body") t.body refl,
    read (codes "type") (tweet_type t.reply_to_id) refl,
    read (codes "reply_to_id") t.reply_to_id refl,
    read (codes "media_id") t.media_id refl,
    read (codes "media_url") t.media_url refl,
    read (codes "hashtags") (join b',' t.hashtags) refl,
    read (codes "created_at") (format_int t.created_at) refl,
    type_kept t.reply_to_id,
    hashtags_of-join t.hashtags commas empties,
    created_at_of-parsed (format_int t.created_at) t.created_at
        (parse_int-format_int t.created_at time),
    embedded_known h t.author_id a.username a.display_name a.avatar_url known
        (read (codes "author_username") a.username refl)
        (read (codes "author_display_name") a.display_name refl)
        (read (codes "author_avatar_url") a.avatar_url refl),
  )
