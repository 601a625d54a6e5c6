-- ===== src/Feed/Recommended/Rebuilt.antt =====
-- The recommended feed as a client reads it whose first page finds the cache expired.
use twitter_microservices.Prelude.{
  ℕ, zero, suc, ◌+◌, ◌≤◌, ◌<◌, ◌≡◌, ◌∙◌, refl, sym, ap, inl, inr, Bool-cases, arith, false, Option,
  none, some, List, [], ◌∷◌, ◌++◌, append_assoc, append-nil, map, Bytes, ◌=?◌, bytes_eq_refl,
  negsuc, ltb, length, take, drop, take_all, drop-drop, take-append-drop, length-drop,
}
use twitter_microservices.Shared.Walk.{walk, walk_last, walk_more}
use twitter_microservices.Feed.Ids.{Distinct}
use twitter_microservices.Feed.Page.Walk.{cut_page-take, next_page, cursor_at_short, cursor_at_full}
use twitter_microservices.Shared.Errors.{Result, ok}
use twitter_microservices.Shared.Redis.{Redis, KeepsLists, Command, on_list, run_list}
use twitter_microservices.Feed.Entry.{encode_tweet_entry}
use twitter_microservices.Feed.Keys.{recommended_key}
use twitter_microservices.Feed.Page.{page, get_recommended_feed, cursor_at}
use twitter_microservices.Feed.Recommended.{
  rpush_commands, recommended_commands, set_recommended_feed, recommended_cache_exists,
  recommended_page, refreshed,
}

run_list-rpush :
    (key : Bytes) (ids l : List Bytes) (rest : List Command)
    → run_list key (rpush_commands key ids ++ rest) l ≡ run_list key rest (l ++ ids)
unfolding run_list on_list
run_list-rpush key [] l rest = ap (run_list key rest) (sym (append-nil l))
run_list-rpush key (id ∷ ids) l rest =
    rw (run_list, on_list, bytes_eq_refl key) (run_list-rpush key ids (l ++ id ∷ []) rest)
    ∙ ap (run_list key rest) (append_assoc l (id ∷ []) ids)

-- The pipeline of SetRecommendedFeed makes the list the ranking, whatever it was.
run_list-recommended :
    (user_id : Bytes) (ids l : List Bytes)
    → run_list (recommended_key user_id) (recommended_commands user_id ids) l ≡ ids
unfolding run_list on_list ◌=?◌ recommended_key
run_list-recommended user_id ids l =
    rw (run_list, on_list, bytes_eq_refl (recommended_key user_id))
      (run_list-rpush (recommended_key user_id) ids [] _)

map-append :
    (xs ys : List Bytes)
    → map encode_tweet_entry (xs ++ ys) ≡ map encode_tweet_entry xs ++ map encode_tweet_entry ys
unfolding encode_tweet_entry
map-append [] ys = refl
map-append (x ∷ xs) ys = ap (λ q. encode_tweet_entry x ∷ q) (map-append xs ys)

-- A client whose pages are those of a list of distinct IDs.
module _ (ids : List Bytes) (limit : ℕ) (d : Distinct ids) (positive : 0 < limit)
    (served : Option Bytes → Result (List Bytes × Option Bytes))
    (serves : (cursor : Option Bytes)
      → served cursor
        ≡ ok (
          map encode_tweet_entry (page ids cursor limit),
          cursor_at (page ids cursor limit) limit,
        )) where
  walk-served :
      (fuel start : ℕ) (cursor : Option Bytes)
      → length ids < start + fuel
      → start ≤ length ids
      → page ids cursor limit ≡ take limit (drop start ids)
      → walk served fuel cursor ≡ some (map encode_tweet_entry (drop start ids))
  walk-served zero start cursor enough h here = absurd (omega arith)
  walk-served (suc fuel) start cursor enough h here =
      elim (Bool-cases (ltb (length (drop start ids)) limit)) [
        | inl short ↦
            let whole : take limit (drop start ids) ≡ drop start ids =
              take_all limit _ (ground arith) in
            walk_last served fuel cursor (map encode_tweet_entry (drop start ids)) (
              serves cursor
              ∙ rw (here, whole, cursor_at_short (drop start ids) limit (ground arith)))
        | inr full ↦
            let (c, at, elem) = cursor_at_full ids start limit positive (ground arith) in
            let fits : start + limit ≤ length ids = grind (arith, length-drop start ids) in
            walk_more served fuel cursor c (map encode_tweet_entry (take limit (drop start ids)))
              (map encode_tweet_entry (drop (start + limit) ids)) (serves cursor ∙ rw (here, at))
              (walk-served fuel (start + limit) (some c) (omega arith) fits
                (next_page ids start limit c d elem positive))
            ∙ ap some (
                sym (map-append (take limit (drop start ids)) (drop (start + limit) ids))
                ∙ ap (λ q. map encode_tweet_entry (take limit (drop start ids) ++ q))
                    (sym (drop-drop start limit ids))
                ∙ ap (map encode_tweet_entry) (take-append-drop limit (drop start ids)))
      ]

module _ {T : Type 0} (r : Redis) (k : KeepsLists r) (candidates : List T)
    (rank : List T → List Bytes) (user_id : Bytes) (limit : ℕ) (s : Redis.State r)
    (l : List Bytes) where
  -- What the rebuild leaves in Redis.
  abbrev pub rebuilt : Redis.State r
  rebuilt = set_recommended_feed r user_id (rank candidates) s

  -- The pages that a client gets: the first one before the rebuild, the others behind it.
  abbrev pub client_page : Option Bytes → Result (List Bytes × Option Bytes)
  client_page none = (recommended_page r (ok candidates) rank user_id none limit s).0
  client_page (some c) = (recommended_page r (ok candidates) rank user_id (some c) limit rebuilt).0

  module _ (expired : recommended_cache_exists r user_id s ≡ false)
      (sent : (Redis.exec r (recommended_commands user_id (rank candidates)) s).1 ≡ none)
      (answer : Redis.lrange r (recommended_key user_id) 0 (negsuc 0) rebuilt ≡ ok l) where
    whole : l ≡ rank candidates
    unfolding set_recommended_feed
    whole =
        k.lrange_whole (recommended_key user_id) rebuilt l answer
        ∙ k.exec_lists (recommended_commands user_id (rank candidates)) s (recommended_key user_id)
            sent
        ∙ run_list-recommended user_id (rank candidates) (k.lists s (recommended_key user_id))

    page_of_ranking :
        (cursor : Option Bytes)
        → client_page cursor
          ≡ ok (
            map encode_tweet_entry (page (rank candidates) cursor limit),
            cursor_at (page (rank candidates) cursor limit) limit,
          )
    unfolding recommended_page get_recommended_feed
    page_of_ranking none =
        rw (recommended_page, refreshed, expired, get_recommended_feed, answer, whole)
    page_of_ranking (some c) = rw (recommended_page, refreshed, get_recommended_feed, answer, whole)

    -- A client that asks for the recommended feed when the marker has expired and then follows the
    -- cursors, with a positive limit, ends within one page more than there are tweets in the new
    -- ranking and has then got that ranking, every tweet once and in its order, where the ranking
    -- holds no tweet twice, the pipeline of the rebuild and the reads meet no error and the list is
    -- not rebuilt meanwhile.
    pub rebuilt_walk_complete :
        (fuel : ℕ)
        → Distinct (rank candidates)
        → 0 < limit
        → length (rank candidates) < fuel
        → walk client_page fuel none ≡ some (map encode_tweet_entry (rank candidates))
    unfolding page
    rebuilt_walk_complete fuel d positive enough =
        walk-served (rank candidates) limit d positive client_page page_of_ranking fuel 0 none
          (omega arith) (omega arith) (cut_page-take (rank candidates) 0 limit)
