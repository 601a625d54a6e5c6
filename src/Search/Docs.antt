-- ===== src/Search/Docs.antt =====
-- The documents of apps/search-service/internal/opensearch/client.go. A time is its Unix seconds; a
-- float32 is its bit pattern; `[]` is a nil vector.
use twitter_microservices.Prelude.{ℕ, List, Bytes, ℤ}

abbrev pub Vector : Type 0
Vector = List ℕ

pub record TweetDoc : Type 0 where
  pub id : Bytes
  pub author_id : Bytes
  pub body : Bytes
  pub hashtags : List Bytes
  pub like_count : ℤ
  pub retweet_count : ℤ
  pub reply_to_id : Bytes
  pub media_id : Bytes
  pub media_url : Bytes
  pub created_at : ℤ
  pub vector : Vector

pub record UserDoc : Type 0 where
  pub id : Bytes
  pub username : Bytes
  pub display_name : Bytes
  pub bio : Bytes
  pub avatar_url : Bytes
  pub updated_at : ℤ
  pub vector : Vector
