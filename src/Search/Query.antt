-- ===== src/Search/Query.antt =====
-- buildTweetQuery and buildUserQuery of apps/search-service/internal/opensearch/client.go. A query is
-- given by which of the JSON bodies it is, and by what that body holds.
use twitter_microservices.Prelude.{
  Bool, false, not, ◌&&◌, ◌||◌, [], ◌∷◌, Bytes, codes, ◌=?◌, ◌==◌, if◌then◌else◌, ℤ,
}
use twitter_microservices.Text.{has_prefix}
use twitter_microservices.Search.Docs.{Vector}

-- Which clause the body has: a term on hashtags, a knn, both, or a multi_match.
pub data Clause : Type 0 where
  hashtag_term : Bytes → Clause
  knn : Vector → ℤ → Clause
  match_or_knn : Bytes → Vector → ℤ → Clause
  best_fields : Bytes → Clause

pub record TweetQuery : Type 0 where
  pub from : ℤ
  pub size : ℤ
  pub clause : Clause

pub record UserQuery : Type 0 where
  pub from : ℤ
  pub size : ℤ
  pub text : Bytes

-- strings.ContainsAny(query, " \t\n")
unfoldable pub has_blank : Bytes → Bool
has_blank [] = false
has_blank (c ∷ s) = (c == 32 || (c == 9 || c == 10)) || has_blank s

abbrev is_hashtag : Bytes → Bool
is_hashtag query = has_prefix query (codes "#") && not (has_blank query)

abbrev by_mode : Bytes → Vector → Bytes → ℤ → Clause
by_mode query vector mode size =
    if mode =? codes "semantic"
    then knn vector size
    else if mode =? codes "hybrid"
    then match_or_knn query vector size
    else best_fields query

-- A nil vector makes the mode "keyword".
abbrev effective : Vector → Bytes → Bytes
effective [] mode = codes "keyword"
effective (x ∷ v) mode = mode

-- buildTweetQuery
unfoldable pub build_tweet_query : Bytes → Vector → Bytes → ℤ → ℤ → TweetQuery
unfolding has_prefix has_blank
build_tweet_query query vector mode from size = record {
  from = from;
  size = size;
  clause =
      if is_hashtag query
      then hashtag_term query
      else by_mode query vector (effective vector mode) size;
}

-- buildUserQuery
abbrev pub build_user_query : Bytes → ℤ → ℤ → UserQuery
build_user_query query from size = record { from = from; size = size; text = query }
