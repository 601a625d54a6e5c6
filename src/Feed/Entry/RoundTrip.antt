-- ===== src/Feed/Entry/RoundTrip.antt =====
-- Encoded entries are read back.
use twitter_microservices.Prelude.{
  ◌≡◌, ◌≢◌, refl, sym, ap, ◌∙◌, none, some, [], ◌∷◌, ◌++◌, arith, Bytes, codes, ◌=?◌,
  bytes_eq_of_true, bytes_true_of_eq, ℤ, IsInt64, Bool-cases, List, inl, inr,
}
use twitter_microservices.Text.{Lacks, split, split-part, split-last, join, join-split}
use twitter_microservices.Text.Decimal.{parse_int, Parsed}
use twitter_microservices.Text.Decimal.RoundTrip.{parse_int-format_int, format_int-Lacks}
use twitter_microservices.Feed.Entry.{
  FeedEntry, tweet_entry, retweet_entry, encode_tweet_entry, encode_retweet_entry, parse_feed_entry,
  parse_tweet, parse_retweet, dispatch_kind,
}

-- A tweet entry with a non-empty ID that holds no separator is read back as that tweet.
pub parse-encode_tweet :
    (id : Bytes)
    → Lacks b'|' id
    → id ≢ []
    → parse_feed_entry (encode_tweet_entry id) ≡ some (tweet_entry id)
unfolding parse_feed_entry encode_tweet_entry ◌=?◌
parse-encode_tweet id h ne =
    rw (split-part b'|' (codes "T") id (omega arith))
      (rw (split-last b'|' id h) (ground (arith, bytes_eq_of_true id [])))

retweet_parsed :
    (rt tw by at : Bytes) (ts : ℤ)
    → parse_int 64 at ≡ record { value = ts; error = none }
    → parse_retweet (rt ∷ tw ∷ by ∷ at ∷ []) ≡ some (retweet_entry rt tw by ts)
unfolding parse_retweet
retweet_parsed rt tw by at ts h = ground arith

-- A retweet entry whose three IDs hold no separator, at any int64 time, is read back field by
-- field.
pub parse-encode_retweet :
    (rt tw by : Bytes) (at : ℤ)
    → Lacks b'|' rt
    → Lacks b'|' tw
    → Lacks b'|' by
    → IsInt64 at
    → parse_feed_entry (encode_retweet_entry rt tw by at) ≡ some (retweet_entry rt tw by at)
unfolding parse_feed_entry encode_retweet_entry ◌=?◌
parse-encode_retweet rt tw by at h₁ h₂ h₃ h₄ = rw (split-part b'|' (codes "R") _ (omega arith)) (
    rw (split-part b'|' rt _ h₁) (
      rw (split-part b'|' tw _ h₂) (
        rw (split-part b'|' by _ h₃) (
          rw (split-last b'|' _ (format_int-Lacks at))
            (retweet_parsed rt tw by _ at (parse_int-format_int at h₄))))))

-- What a text that is read as an entry looks like.
pub data Reads (raw : Bytes) (e : FeedEntry) : Type 0 where
  as_tweet : (id : Bytes) → raw ≡ encode_tweet_entry id → id ≢ [] → e ≡ tweet_entry id → Reads raw e
  as_retweet :
      (rt tw by at : Bytes) (ts : ℤ)
      → raw ≡ codes "R|" ++ (rt ++ (b'|' ∷ (tw ++ (b'|' ∷ (by ++ (b'|' ∷ at))))))
      → parse_int 64 at ≡ record { value = ts; error = none }
      → e ≡ retweet_entry rt tw by ts
      → Reads raw e

tweet_parts :
    (raw : Bytes) (e : FeedEntry) (rest : List Bytes)
    → parse_tweet rest ≡ some e
    → raw ≡ join b'|' (codes "T" ∷ rest)
    → Reads raw e
unfolding parse_tweet encode_tweet_entry
tweet_parts raw e [] h j = cc
tweet_parts raw e (id ∷ []) h j =
    as_tweet id j (λ nil. ground (arith, bytes_true_of_eq id [])) (ground arith)
tweet_parts raw e (id ∷ _ ∷ _) h j = cc

retweet_at :
    (raw : Bytes) (e : FeedEntry) (rt tw by at : Bytes) (p : Parsed ℤ)
    → parse_int 64 at ≡ p
    → parse_retweet (rt ∷ tw ∷ by ∷ at ∷ []) ≡ some e
    → raw ≡ join b'|' (codes "R" ∷ rt ∷ tw ∷ by ∷ at ∷ [])
    → Reads raw e
unfolding parse_retweet
retweet_at raw e rt tw by at p q h j =
    as_retweet rt tw by at p.value j (ground arith) (ground arith)

retweet_parts :
    (raw : Bytes) (e : FeedEntry) (rest : List Bytes)
    → parse_retweet rest ≡ some e
    → raw ≡ join b'|' (codes "R" ∷ rest)
    → Reads raw e
retweet_parts raw e (rt ∷ tw ∷ by ∷ at ∷ []) h j =
    retweet_at raw e rt tw by at (parse_int 64 at) refl h j
retweet_parts raw e _ h j = unfold parse_retweet in cc

kind_parts :
    (raw : Bytes) (e : FeedEntry) (parts : List Bytes)
    → dispatch_kind parts ≡ some e
    → raw ≡ join b'|' parts
    → Reads raw e
kind_parts raw e [] h j = cc
kind_parts raw e (kind ∷ rest) h j = elim (Bool-cases (kind =? codes "T")) [
  | inl t ↦
      tweet_parts raw e rest (ground arith)
        (j ∙ ap (λ k. join b'|' (k ∷ rest)) (bytes_eq_of_true kind _ t))
  | inr nt ↦ elim (Bool-cases (kind =? codes "R")) [
    | inl r ↦
        retweet_parts raw e rest (ground arith)
          (j ∙ ap (λ k. join b'|' (k ∷ rest)) (bytes_eq_of_true kind _ r))
    | inr nr ↦ ground arith
  ]
]

-- A text is read as an entry only if it is the encoded form of that entry, up to how the time is
-- spelled.
pub parse_feed_entry-Reads :
    (raw : Bytes) (e : FeedEntry) → parse_feed_entry raw ≡ some e → Reads raw e
unfolding parse_feed_entry
parse_feed_entry-Reads raw e h = kind_parts raw e (split b'|' raw) h (sym (join-split b'|' raw))
