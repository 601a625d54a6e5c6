-- ===== src/Search/Service/Fallback.antt =====
-- What SearchTweets and SearchUsers give where a party fails.
use twitter_microservices.Prelude.{
  ◌≡◌, ◌∙◌, inl, inr, refl, sym, ap, ap₂, bytes_eq_iff, false, Option, List, [], ◌∷◌, Bytes, ◌=?◌,
  Bool-cases, map, ℤ,
}
use twitter_microservices.Shared.Errors.{Error, err}
use twitter_microservices.Search.Docs.{TweetDoc, UserDoc}
use twitter_microservices.Search.Service.{
  Answers, TweetResult, UserResult, mode_keyword, mode_semantic, mode_hybrid, normalise_mode,
  vector_and_mode, search_with, search_tweets, clamp_limit, decode_cursor, enrich_tweets,
  enrich_users,
}

other_mode :
    (mode : Bytes)
    → (mode =? mode_keyword) ≡ false
    → (mode =? mode_semantic) ≡ false
    → normalise_mode mode ≡ mode_hybrid
unfolding normalise_mode
other_mode mode h k = rw (h, k)

-- Without a vector for a mode that needs one, the mode is keyword.
fallback_vector :
    (a : Answers) (query mode : Bytes) (e : Error)
    → a.embed query ≡ err e
    → vector_and_mode a query (normalise_mode mode) ≡ ([], mode_keyword)
unfolding normalise_mode ◌=?◌
fallback_vector a query mode e h = elim (Bool-cases (mode =? mode_keyword)) [
  | inl keyword ↦ rw ((bytes_eq_iff mode mode_keyword).0 keyword) refl
  | inr not_keyword ↦ elim (Bool-cases (mode =? mode_semantic)) [
    | inl semantic ↦ rw ((bytes_eq_iff mode mode_semantic).0 semantic, h) refl
    | inr other ↦ rw (other_mode mode not_keyword other) (rw h refl)
  ]
]

-- If the embedding of the query fails, a search in any mode is the keyword search: the same
-- documents, the same cursor and the effective mode keyword.
pub search_tweets_fallback :
    (a : Answers) (query mode viewer : Bytes) (cursor : Option Bytes) (limit : ℤ) (e : Error)
    → a.embed query ≡ err e
    → search_tweets a query mode viewer cursor limit
      ≡ search_tweets a query mode_keyword viewer cursor limit
unfolding search_tweets
search_tweets_fallback a query mode viewer cursor limit e h =
    ap (search_with a query viewer (decode_cursor cursor) (clamp_limit limit))
      (fallback_vector a query mode e h ∙ sym (fallback_vector a query mode_keyword e h))

abbrev pub docs_of : List TweetResult → List TweetDoc
docs_of [] = []
docs_of (r ∷ rs) = r.doc ∷ docs_of rs

abbrev pub user_docs_of : List UserResult → List UserDoc
user_docs_of [] = []
user_docs_of (r ∷ rs) = r.doc ∷ user_docs_of rs

pub docs_of-map :
    (f : TweetDoc → TweetResult) (docs : List TweetDoc)
    → ((d : TweetDoc) → (f d).doc ≡ d)
    → docs_of (map f docs) ≡ docs
docs_of-map f [] h = refl
docs_of-map f (d ∷ ds) h = ap₂ {C = List TweetDoc} ◌∷◌ (h d) (docs_of-map f ds h)

user_docs_of-map :
    (f : UserDoc → UserResult) (docs : List UserDoc)
    → ((d : UserDoc) → (f d).doc ≡ d)
    → user_docs_of (map f docs) ≡ docs
user_docs_of-map f [] h = refl
user_docs_of-map f (d ∷ ds) h = ap₂ {C = List UserDoc} ◌∷◌ (h d) (user_docs_of-map f ds h)

-- Whatever Redis and the other services answer, the results are the documents that OpenSearch
-- ranked, all of them and in their order.
pub enriched_docs :
    (a : Answers) (tweets : List TweetDoc) (users : List UserDoc) (viewer : Bytes)
    → (docs_of (enrich_tweets a tweets viewer) ≡ tweets)
      × (user_docs_of (enrich_users a users viewer) ≡ users)
unfolding enrich_tweets enrich_users
enriched_docs a tweets users viewer =
    (docs_of-map _ tweets (λ d. refl), user_docs_of-map _ users (λ d. refl))
