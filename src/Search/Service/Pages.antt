-- ===== src/Search/Service/Pages.antt =====
-- A client that follows the cursors of SearchTweets to the end of a ranking.
use twitter_microservices.Prelude.{
  ℕ, zero, suc, ◌+◌, ◌-◌, ◌≤◌, ◌<◌, ◌^◌, ◌≡◌, ◌∙◌, inl, inr, refl, sym, subst, ap, Option, none,
  some, false, ◌=?◌, codes, List, [], ◌∷◌, ◌++◌, Bytes, arith, Bool-cases, take, drop, length,
  length-drop, length-take, drop-drop, take-append-drop, take_all, ltb, ℤ, pos, negsuc,
}
use twitter_microservices.Text.{has_prefix}
use twitter_microservices.Text.Decimal.{format_int}
use twitter_microservices.Text.Decimal.RoundTrip.{parse_int-format_int}
use twitter_microservices.Shared.Errors.{Result, ok, ◌>>=◌}
use twitter_microservices.Shared.Walk.{walk, walk_last, walk_more}
use twitter_microservices.Search.Docs.{Vector, TweetDoc}
use twitter_microservices.Search.Query.{Clause, TweetQuery, knn, build_tweet_query}
use twitter_microservices.Search.Service.{
  Answers, TweetPage, tweet_page, mode_semantic, normalise_mode, clamp_limit, decode_cursor,
  next_cursor_for, vector_and_mode, search_with, search_tweets,
}
use twitter_microservices.Search.Service.Fallback.{docs_of, enriched_docs}

-- The page limit is 1 to 100, and it is the limit asked for where that is in range.
pub clamp_limit-IsBounded : (limit : ℤ) → (0 < clamp_limit limit) × (clamp_limit limit ≤ 100)
unfolding clamp_limit
clamp_limit-IsBounded (negsuc n) = (omega arith, omega arith)
clamp_limit-IsBounded (pos n) = (ground arith, ground arith)

-- The cursor that SearchTweets gives is read back as the offset it stands for.
decode-next_cursor : (n : ℕ) → n < 2 ^ 63 → decode_cursor (some (format_int (pos n))) ≡ n
unfolding decode_cursor
decode-next_cursor n h = rw (parse_int-format_int (pos n) h)

next_none :
    (from k : ℕ) (rest : List TweetDoc)
    → length rest < k
    → next_cursor_for from k (length rest) ≡ none
unfolding next_cursor_for
next_none from k rest h = ground arith

next_some :
    (from k : ℕ) (rest : List TweetDoc)
    → k ≤ length rest
    → next_cursor_for from k (length (take k rest)) ≡ some (format_int (pos (from + k)))
unfolding next_cursor_for
next_some from k rest h = ground (arith, length-take k rest h)

-- max_result_window of an index, which is not set otherwise.
abbrev pub result_window : ℕ
result_window = 10000

-- The documented answers to the queries, on an index that does not change: a slice of the ranking of
-- the clause as long as from + size is within the window, and at most k documents for a knn clause
-- on the one shard of an index.
pub record Ranks (a : Answers) : Type 0 where
  pub ranking : Clause → List TweetDoc
  pub slices :
      (from size : ℕ) (c : Clause)
      → from + size ≤ result_window
      → a.search_tweets (record { from = pos from; size = pos size; clause = c })
        ≡ ok (take size (drop from (ranking c)))
  pub nearest : (v : Vector) (k : ℕ) → length (ranking (knn v (pos k))) ≤ k

-- The documents of a page and its cursor.
abbrev docs_page : TweetPage → List TweetDoc × Option Bytes
docs_page p = (docs_of p.results, p.next_cursor)

module _ (a : Answers) (query mode viewer : Bytes) (limit : ℤ) where
  abbrev pub page : Option Bytes → Result (List TweetDoc × Option Bytes)
  page cursor = do p ← search_tweets a query mode viewer cursor limit; ok (docs_page p)

  -- The clause of every page.
  abbrev pub clause : Clause
  clause = TweetQuery.clause (
      build_tweet_query query (vector_and_mode a query (normalise_mode mode)).0
        (vector_and_mode a query (normalise_mode mode)).1 (pos 0) (pos (clamp_limit limit)))

  semantic_clause :
      (x : ℕ) (v : Vector)
      → mode ≡ mode_semantic
      → a.embed query ≡ ok (x ∷ v)
      → has_prefix query (codes "#") ≡ false
      → clause ≡ knn (x ∷ v) (pos (clamp_limit limit))
  unfolding build_tweet_query normalise_mode ◌=?◌
  semantic_clause x v m e h = rw (m, e, h)

  module _ (server : Ranks a) where
    abbrev pub ranked : List TweetDoc
    ranked = server.ranking clause

    search-slice :
        (cursor : Option Bytes) (from : ℕ)
        → decode_cursor cursor ≡ from
        → from + clamp_limit limit ≤ result_window
        → search_tweets a query mode viewer cursor limit
          ≡ ok (
              tweet_page a from
                (clamp_limit limit)
                viewer
                (vector_and_mode a query (normalise_mode mode)).1
                (take (clamp_limit limit) (drop from ranked)))
    unfolding search_tweets search_with build_tweet_query
    search-slice cursor from d w =
        rw (search_tweets, d, search_with, server.slices from (clamp_limit limit) clause w)

    page-slice :
        (cursor : Option Bytes) (from : ℕ)
        → decode_cursor cursor ≡ from
        → from + clamp_limit limit ≤ result_window
        → page cursor
          ≡ ok (
            take (clamp_limit limit) (drop from ranked),
            next_cursor_for from
                (clamp_limit limit)
                (length (take (clamp_limit limit) (drop from ranked))),
          )
    page-slice cursor from d w =
        let docs = take (clamp_limit limit) (drop from ranked) in
        rw (page, search-slice cursor from d w, (enriched_docs a docs [] viewer).0)

    walk-short :
        (fuel from : ℕ) (cursor : Option Bytes)
        → decode_cursor cursor ≡ from
        → from + clamp_limit limit ≤ result_window
        → length (drop from ranked) < clamp_limit limit
        → walk page (suc fuel) cursor ≡ some (drop from ranked)
    walk-short fuel from cursor d w h = walk_last page fuel cursor (drop from ranked) (
        page-slice cursor from d w
        ∙ rw (
          take_all (clamp_limit limit) (drop from ranked) (omega arith),
          next_none from (clamp_limit limit) (drop from ranked) h,
        ))

    walk-full :
        (fuel from : ℕ) (cursor : Option Bytes)
        → decode_cursor cursor ≡ from
        → from + clamp_limit limit ≤ result_window
        → clamp_limit limit ≤ length (drop from ranked)
        → walk page fuel (some (format_int (pos (from + clamp_limit limit))))
          ≡ some (drop (from + clamp_limit limit) ranked)
        → walk page (suc fuel) cursor ≡ some (drop from ranked)
    walk-full fuel from cursor d w h next =
        let k = clamp_limit limit in
        let rest = drop from ranked in
        walk_more page fuel cursor (format_int (pos (from + k))) (take k rest)
          (drop (from + k) ranked) (page-slice cursor from d w ∙ rw (next_some from k rest h)) next
        ∙ ap some (
            ap (λ (q : List TweetDoc). take k rest ++ q) (sym (drop-drop from k ranked))
            ∙ take-append-drop k rest)

    walk-from :
        (fuel from : ℕ) (cursor : Option Bytes)
        → length ranked + 100 ≤ result_window
        → decode_cursor cursor ≡ from
        → from ≤ length ranked
        → length ranked - from < fuel
        → walk page fuel cursor ≡ some (drop from ranked)
    walk-from zero from cursor b d h enough = absurd (omega arith)
    walk-from (suc fuel) from cursor b d h enough =
        let (positive, small) = clamp_limit-IsBounded limit in
        let w : from + clamp_limit limit ≤ result_window = omega arith in
        elim (Bool-cases (ltb (length (drop from ranked)) (clamp_limit limit))) [
          | inl short ↦ walk-short fuel from cursor d w (ground arith)
          | inr full ↦
              let fits : from + clamp_limit limit ≤ length ranked =
                grind (arith, length-drop from ranked) in
              walk-full fuel from cursor d w (ground arith) (
                walk-from fuel (from + clamp_limit limit)
                  (some (format_int (pos (from + clamp_limit limit)))) b
                  (decode-next_cursor (from + clamp_limit limit) (omega arith)) fits (omega arith))
        ]

    -- A client that follows the cursors of SearchTweets, with whatever limit and mode, ends within
    -- one page more than there are documents in the ranking of its query, and has then got that
    -- ranking, every document once and in its order, where OpenSearch answers as documented and the
    -- ranking stays 100 documents below the result window. The ranking of a query with a knn clause
    -- depends on the limit.
    pub search_walk_complete :
        (fuel : ℕ)
        → length ranked + 100 ≤ result_window
        → length ranked < fuel
        → walk page fuel none ≡ some ranked
    search_walk_complete fuel b enough =
        walk-from fuel 0 none b (unfold decode_cursor in refl) (omega arith) (omega arith)

    two_pages :
        (fuel : ℕ)
        → length ranked ≤ clamp_limit limit
        → walk page (suc (suc fuel)) none ≡ some ranked
    two_pages fuel few =
        let (positive, small) = clamp_limit-IsBounded limit in
        let first : 0 + clamp_limit limit ≤ result_window = omega arith in
        elim (Bool-cases (ltb (length ranked) (clamp_limit limit))) [
          | inl short ↦
              walk-short (suc fuel) 0 none (unfold decode_cursor in refl) first (ground arith)
          | inr full ↦
              walk-full (suc fuel) 0 none (unfold decode_cursor in refl) first (ground arith) (
                walk-short fuel (0 + clamp_limit limit)
                  (some (format_int (pos (0 + clamp_limit limit))))
                  (decode-next_cursor (0 + clamp_limit limit) (omega arith)) (omega arith)
                  (omega (arith, length-drop (0 + clamp_limit limit) ranked)))
        ]

    -- A client that follows the cursors of a semantic search to the end, for any number of pages
    -- from two on, gets no more documents than the limit of one page, however many tweets the index
    -- holds, where the query is embedded and does not begin with a hash and OpenSearch answers as
    -- documented.
    pub semantic_search_ends :
        (x : ℕ) (v : Vector) (fuel : ℕ)
        → mode ≡ mode_semantic
        → a.embed query ≡ ok (x ∷ v)
        → has_prefix query (codes "#") ≡ false
        → (docs : List TweetDoc) × (walk page (suc (suc fuel)) none ≡ some docs)
          × (length docs ≤ clamp_limit limit)
    semantic_search_ends x v fuel m e h =
        let few : length ranked ≤ clamp_limit limit =
          subst (λ q. length (server.ranking q) ≤ clamp_limit limit)
            (sym (semantic_clause x v m e h)) (server.nearest (x ∷ v) (clamp_limit limit)) in
        (ranked, two_pages fuel few, few)
