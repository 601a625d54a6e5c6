-- ===== src/Feed/Signals.antt =====
-- The signals of apps/feed-service/internal/consumer/consumer.go: IncrementTrending,
-- UpdateUserInterests and UpdateUserAffinity with their keys. A weight is a count of tenths; a time to
-- live is in seconds; logging is left out.
use twitter_microservices.Prelude.{
  ℕ, suc, ◌/◌, List, [], ◌∷◌, ◌++◌, Bytes, codes, ℤ, pos, negsuc, neg,
}
use twitter_microservices.Text.Decimal.{format_int}
use twitter_microservices.Shared.Redis.{Redis, Command, del, expire, zincrby}

abbrev pub trending_minute_ttl : ℕ
trending_minute_ttl = 4200

abbrev pub signal_ttl : ℕ
signal_ttl = 2592000

-- MinuteBucket; Go's division drops the remainder towards zero.
unfoldable pub minute_bucket : ℤ → ℤ
minute_bucket (pos n) = pos (n / 60)
minute_bucket (negsuc n) = neg (suc n / 60)

-- MinuteBucketKey
unfoldable pub minute_bucket_key : ℤ → Bytes
unfolding format_int
minute_bucket_key bucket = codes "trending:minute:" ++ format_int bucket

abbrev pub user_interests_key : Bytes → Bytes
user_interests_key user_id = codes "user_interests:" ++ user_id

abbrev pub user_affinity_key : Bytes → Bytes
user_affinity_key user_id = codes "user_affinity:" ++ user_id

abbrev pub recommended_ts_key : Bytes → Bytes
recommended_ts_key user_id = codes "recommended_ts:" ++ user_id

abbrev pub zincrby_commands : Bytes → ℕ → List Bytes → List Command
zincrby_commands key weight [] = []
zincrby_commands key weight (tag ∷ tags) = zincrby key weight tag ∷ zincrby_commands key weight tags

abbrev interest_commands : Bytes → List Bytes → ℕ → List Command
interest_commands user_id hashtags weight =
    zincrby_commands (user_interests_key user_id) weight hashtags
    ++ (expire (user_interests_key user_id) signal_ttl ∷ del (recommended_ts_key user_id) ∷ [])

abbrev affinity_commands : Bytes → Bytes → ℕ → List Command
affinity_commands user_id author_id weight =
    zincrby (user_affinity_key user_id) weight author_id
    ∷ expire (user_affinity_key user_id) signal_ttl
    ∷ del (recommended_ts_key user_id)
    ∷ []

module _ (r : Redis) where
  open r use {State, exec}

  -- IncrementTrending, at the Unix time `now`
  unfoldable pub increment_trending : ℤ → List Bytes → State → State
  unfolding minute_bucket minute_bucket_key
  increment_trending now [] s = s
  increment_trending now (tag ∷ tags) s =
      let key = minute_bucket_key (minute_bucket now) in
      (exec (zincrby_commands key 10 (tag ∷ tags) ++ expire key trending_minute_ttl ∷ []) s).0

  -- UpdateUserInterests
  unfoldable pub update_user_interests : Bytes → List Bytes → ℕ → State → State
  update_user_interests user_id [] weight s = s
  update_user_interests user_id (tag ∷ tags) weight s =
      (exec (interest_commands user_id (tag ∷ tags) weight) s).0

  -- UpdateUserAffinity
  unfoldable pub update_user_affinity : Bytes → Bytes → ℕ → State → State
  update_user_affinity user_id [] weight s = s
  update_user_affinity user_id (c ∷ author_id) weight s =
      (exec (affinity_commands user_id (c ∷ author_id) weight) s).0
