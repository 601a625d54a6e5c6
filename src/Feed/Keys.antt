-- ===== src/Feed/Keys.antt =====
-- The Redis keys of apps/feed-service/internal/consumer/consumer.go, and its limits. A time to live
-- is in seconds.
use twitter_microservices.Prelude.{ℕ, ◌++◌, ◌≡◌, refl, Bytes, codes, ◌=?◌}

abbrev pub following_limit : ℕ
following_limit = 800

abbrev pub following_ttl : ℕ
following_ttl = 604800

abbrev pub celeb_threshold : ℕ
celeb_threshold = 1000

abbrev pub celeb_flag_ttl : ℕ
celeb_flag_ttl = 3600

abbrev pub backfill_limit : ℕ
backfill_limit = 20

unfoldable pub following_key : Bytes → Bytes
following_key user_id = codes "following:" ++ user_id

unfoldable pub celeb_key : Bytes → Bytes
celeb_key user_id = codes "celeb:" ++ user_id

unfoldable pub user_counts_key : Bytes → Bytes
user_counts_key user_id = codes "user:counts:" ++ user_id

unfoldable pub recommended_key : Bytes → Bytes
recommended_key user_id = codes "recommended:" ++ user_id

-- Two users have the same list key only if they are one user.
pub following_key-injective : (a b : Bytes) → (following_key a =? following_key b) ≡ (a =? b)
unfolding following_key ◌=?◌
following_key-injective a b = refl
