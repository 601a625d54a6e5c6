-- ===== src/Examples/Feed.antt =====
-- Home timelines on a server that keeps its lists in a function.
use twitter_microservices.Prelude.{
  ℕ, suc, ◌≡◌, refl, subst, none, some, List, [], ◌∷◌, ◌++◌, map, Bytes, codes, ◌=?◌, if◌then◌else◌,
  take, drop, pos, negsuc, arith,
}
use twitter_microservices.Shared.Errors.{Result, ok}
use twitter_microservices.Shared.Redis.{Redis, KeepsLists, on_list, run_list}
use twitter_microservices.Feed.Ids.{mem?, Distinct}
use twitter_microservices.Feed.Entry.{encode_tweet_entry}
use twitter_microservices.Feed.Keys.{following_limit, recommended_key}
use twitter_microservices.Feed.Page.{index_of, page, cursor_at}
use twitter_microservices.Feed.Page.Walk.{walk, walk_complete, page_stuck}
use twitter_microservices.Feed.Recommended.{recommended_cache_exists, set_recommended_feed}
use twitter_microservices.Feed.Recommended.Rebuilt.{client_page, rebuilt_walk_complete}
use twitter_microservices.Shared.Walk
use twitter_microservices.Feed.Fanout.{push_commands, is_celeb, fan_out, backfill_following_feed}
use twitter_microservices.Feed.Fanout.Delivery.{
  following, IsRegular, IsBounded, fan_out-following, backfill-following, fan_out-IsBounded,
}

-- A server whose celebrity flags and follower counts are the same for every user.
abbrev server : ℕ → ℕ → Redis
server flag followers = record {
  State = Bytes → List Bytes;
  exec = λ cs s. (λ k. run_list k cs (s k), none);
  exists_key = λ k s. ok flag;
  get = λ k s. ok [];
  hget_int64 = λ k f s. (pos followers, none);
  hget = λ k f s. ok [];
  smembers = λ k s. ok [];
  hgetall = λ k s. ok [];
  lrange =
      λ k a b s. elim b [ pos n ↦ ok (drop a (take (suc n) (s k))) | negsuc n ↦ ok (drop a (s k)) ];
}

server_keeps : (flag followers : ℕ) → KeepsLists (server flag followers)
server_keeps flag followers = record {
  lists = λ s k. s k;
  exec_lists = λ cs s k h. refl;
  lrange_lists = λ k a b s l h. cc;
  lrange_whole = λ k s l h. cc;
}

abbrev first_tweet : Bytes
first_tweet = codes "T|tw_1"

abbrev second_tweet : Bytes
second_tweet = codes "T|tw_2"

abbrev a_retweet : Bytes
a_retweet = codes "R|rt_1|tw_1|bob|5"

-- Every list of the server.
abbrev timelines : Bytes → List Bytes
timelines k = first_tweet ∷ a_retweet ∷ []

abbrev follower_ids : Bytes → Result (List Bytes)
follower_ids id = ok (codes "ann" ∷ codes "bob" ∷ [])

abbrev regular : IsRegular (server 0 3) (server_keeps 0 3) (codes "eve") timelines
regular = record { no_flag = refl; few = refl }

fan_out-following_example :
    following
      (server 0 3)
      (server_keeps 0 3)
      (codes "ann")
      (fan_out (server 0 3) follower_ids second_tweet (codes "eve") timelines)
    ≡ (if mem? (codes "ann") (codes "ann" ∷ codes "bob" ∷ [])
        then take following_limit
            (second_tweet ∷ following (server 0 3) (server_keeps 0 3) (codes "ann") timelines)
        else following (server 0 3) (server_keeps 0 3) (codes "ann") timelines)
unfolding ◌=?◌
fan_out-following_example =
    fan_out-following (server 0 3) (server_keeps 0 3) follower_ids second_tweet (codes "eve")
      (codes "ann" ∷ codes "bob" ∷ []) timelines (codes "ann") regular refl (refl, (refl, tt)) refl

backfill-following_example :
    following (server 0 3) (server_keeps 0 3) (codes "ann") (
      backfill_following_feed
        (server 0 3)
        (some (λ id n. ok (codes "tw_4" ∷ codes "tw_3" ∷ [])))
        (codes "ann")
        (codes "eve")
        timelines)
    ≡ take following_limit (
        map encode_tweet_entry (codes "tw_4" ∷ codes "tw_3" ∷ [])
        ++ following (server 0 3) (server_keeps 0 3) (codes "ann") timelines)
unfolding is_celeb
backfill-following_example =
    backfill-following (server 0 3) (server_keeps 0 3)
      (λ id n. ok (codes "tw_4" ∷ codes "tw_3" ∷ [])) (codes "ann") (codes "eve") (codes "tw_4")
      (codes "tw_3" ∷ []) timelines refl refl refl

eves_followers :
    (fs : List Bytes)
    → follower_ids (codes "eve") ≡ ok fs
    → Distinct fs × ((Redis.exec (server 0 3) (push_commands second_tweet fs) timelines).1 ≡ none)
unfolding ◌=?◌
eves_followers fs h =
    let same : codes "ann" ∷ codes "bob" ∷ [] ≡ fs = cc in
    subst
      (λ l.
        Distinct l × ((Redis.exec (server 0 3) (push_commands second_tweet l) timelines).1 ≡ none))
      same ((refl, (refl, tt)), refl)

fan_out-IsBounded_example :
    IsBounded
      (server 0 3)
      (server_keeps 0 3)
      (fan_out (server 0 3) follower_ids second_tweet (codes "eve") timelines)
unfolding following server_keeps
fan_out-IsBounded_example =
    fan_out-IsBounded (server 0 3) (server_keeps 0 3) follower_ids second_tweet (codes "eve")
      timelines eves_followers refl (λ u. omega arith)

abbrev three_ids : List Bytes
three_ids = codes "a" ∷ codes "b" ∷ codes "c" ∷ []

rebuilt_walk_complete_example :
    Walk.walk
      (client_page
        (server 0 3)
        (server_keeps 0 3)
        three_ids
        (λ l. l)
        (codes "ann")
        2
        timelines
        three_ids)
      4
      none
    ≡ some (map encode_tweet_entry three_ids)
unfolding recommended_cache_exists set_recommended_feed ◌=?◌ run_list on_list recommended_key
rebuilt_walk_complete_example =
    rebuilt_walk_complete (server 0 3) (server_keeps 0 3) three_ids (λ l. l) (codes "ann") 2
      timelines three_ids refl refl refl 4 (refl, (refl, (refl, tt))) (omega arith) (omega arith)

abbrev three_entries : List Bytes
three_entries = codes "T|a" ∷ codes "T|b" ∷ codes "T|c" ∷ []

walk_complete_example : walk 4 three_entries none 2 ≡ three_entries
unfolding ◌=?◌
walk_complete_example =
    walk_complete three_entries 2 4 (refl, (refl, (refl, tt))) (omega arith) (omega arith)

page_stuck_example :
    cursor_at (page (codes "T|a" ∷ codes "T|b" ∷ codes "T|a" ∷ []) (some (codes "T|a")) 2) 2
    ≡ some (codes "T|a")
unfolding index_of ◌=?◌
page_stuck_example =
    page_stuck (codes "T|a" ∷ codes "T|b" ∷ codes "T|a" ∷ []) 0 2 (codes "T|a") (omega arith) refl
      refl
