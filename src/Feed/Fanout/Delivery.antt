-- ===== src/Feed/Fanout/Delivery.antt =====
-- What the followers' lists are after each operation, on a server with the documented LIST commands.
use twitter_microservices.Prelude.{
  ℕ, ◌≤◌, ◌<◌, ◌≡◌, refl, ◌⊎◌, ◌∙◌, Bool, true, false, none, some, List, [], ◌∷◌, ◌++◌, Bytes,
  arith, if◌then◌else◌, take, length, length-take-le, map, Bool-cases, inl, inr, ◌=?◌, ◌==◌, leb,
  codes,
}
use twitter_microservices.Shared.Errors.{Error, Result, ok, err}
use twitter_microservices.Shared.Redis.{Redis, KeepsLists, set, run_list, on_list}
use twitter_microservices.Feed.Ids.{mem?, Distinct}
use twitter_microservices.Feed.Entry.{encode_tweet_entry}
use twitter_microservices.Feed.Keys.{
  following_key, following_limit, celeb_key, user_counts_key, backfill_limit,
}
use twitter_microservices.Feed.Fanout.{
  push_commands, backfill_commands, or_zero, reaches_threshold, fan_out, push_to_followers,
  backfill_following_feed, is_celeb,
}
use twitter_microservices.Feed.Fanout.Lists.{run_list-push_commands, run_list-backfill_commands}

module _ (r : Redis) (server : KeepsLists r) where
  open r use {State, exec, exists_key, hget_int64, lrange}
  open server use {lists, exec_lists, lrange_lists}

  -- The list of a user's home timeline.
  unfoldable pub following : Bytes → State → List Bytes
  following u s = lists s (following_key u)

  -- The author is not flagged as a celebrity and has fewer followers than the threshold.
  pub record IsRegular (author_id : Bytes) (s : State) : Type 0 where
    pub no_flag : or_zero (exists_key (celeb_key author_id) s) ≡ 0
    pub few :
        reaches_threshold (hget_int64 (user_counts_key author_id) (codes "follower_count") s).0
        ≡ false

  -- After a fan-out for an author below the celebrity threshold, whose follower IDs arrive without
  -- repetition and whose pipeline meets no error, each follower's list is the entry in front of
  -- the old list, cut to 800, and every other user's list is as it was.
  pub fan_out-following :
      (ids : Bytes → Result (List Bytes)) (entry author : Bytes) (fs : List Bytes) (s : State)
      (u : Bytes)
      → IsRegular author s
      → ids author ≡ ok fs
      → Distinct fs
      → (exec (push_commands entry fs) s).1 ≡ none
      → following u (fan_out r ids entry author s)
        ≡ (if mem? u fs then take following_limit (entry ∷ following u s) else following u s)
  unfolding fan_out following
  fan_out-following ids entry author fs s u regular got d fine =
      rw (regular.no_flag, fan_out)
        (rw (regular.few) (
          rw (got, push_to_followers)
            (exec_lists (push_commands entry fs) s (following_key u) fine
              ∙ run_list-push_commands u entry fs _ d)))

  -- A flagged author, or one who reaches the threshold, is not fanned out, if the pipeline that
  -- sets the flag meets no error: no user's list changes.
  pub fan_out_celebrity :
      (ids : Bytes → Result (List Bytes)) (entry author : Bytes) (s : State) (u : Bytes)
      → (0 < or_zero (exists_key (celeb_key author) s))
        ⊎ (reaches_threshold (hget_int64 (user_counts_key author) (codes "follower_count") s).0
            ≡ true)
      → (exec (set (celeb_key author) (codes "1") 3600 ∷ []) s).1 ≡ none
      → following u (fan_out r ids entry author s) ≡ following u s
  unfolding fan_out following ◌=?◌ celeb_key following_key
  fan_out_celebrity ids entry author s u (inl flag) fine =
      let flagged : (or_zero (exists_key (celeb_key author) s) == 0) ≡ false = ground arith in
      rw (flagged, fan_out)
  fan_out_celebrity ids entry author s u (inr many) fine =
      elim (Bool-cases (or_zero (exists_key (celeb_key author) s) == 0)) [
        | inl none_yet ↦
            rw (none_yet, fan_out)
              (rw many (exec_lists _ s (following_key u) fine ∙ (unfold run_list on_list in refl)))
        | inr flagged ↦ rw (flagged, fan_out)
      ]

  -- A backfill puts the followee's recent tweets in front of the new follower's list, newest
  -- first, cut to 800, if the followee is no celebrity, the tweet service answers with some IDs
  -- and the pipeline meets no error.
  pub backfill-following :
      (recent : Bytes → ℕ → Result (List Bytes)) (u followee id : Bytes) (ids : List Bytes)
      (s : State)
      → is_celeb r followee s ≡ false
      → recent followee backfill_limit ≡ ok (id ∷ ids)
      → (exec (backfill_commands (following_key u) (id ∷ ids)) s).1 ≡ none
      → following u (backfill_following_feed r (some recent) u followee s)
        ≡ take following_limit (map encode_tweet_entry (id ∷ ids) ++ following u s)
  unfolding backfill_following_feed following
  backfill-following recent u followee id ids s regular got fine =
      rw (regular, backfill_following_feed)
        (rw got (
          exec_lists _ s (following_key u) fine
          ∙ run_list-backfill_commands u (id ∷ ids) (lists s (following_key u))))

  -- Every home timeline is within its limit.
  abbrev pub IsBounded : State → Type 0
  IsBounded s = (u : Bytes) → length (following u s) ≤ following_limit

  fan_out_unreachable :
      (ids : Bytes → Result (List Bytes)) (entry author : Bytes) (s : State) (e : Error)
      → IsRegular author s
      → ids author ≡ err e
      → fan_out r ids entry author s ≡ s
  unfolding fan_out
  fan_out_unreachable ids entry author s e regular got =
      rw (regular.no_flag, fan_out) (rw (regular.few) (rw (got, push_to_followers)))

  pushed_le :
      (b : Bool) (entry : Bytes) (l : List Bytes)
      → length l ≤ following_limit
      → length (if b then take following_limit (entry ∷ l) else l) ≤ following_limit
  pushed_le true entry l h = length-take-le following_limit (entry ∷ l)
  pushed_le false entry l h = h

  regular_fan_out-IsBounded :
      (ids : Bytes → Result (List Bytes)) (entry author : Bytes) (s : State)
      (got : Result (List Bytes))
      → ids author ≡ got
      → ((fs : List Bytes)
          → ids author ≡ ok fs
          → Distinct fs × ((exec (push_commands entry fs) s).1 ≡ none))
      → IsRegular author s
      → IsBounded s
      → IsBounded (fan_out r ids entry author s)
  regular_fan_out-IsBounded ids entry author s (err e) got fine regular b u =
      rw (fan_out_unreachable ids entry author s e regular got) (b u)
  regular_fan_out-IsBounded ids entry author s (ok fs) got fine regular b u =
      let (d, quiet) = fine fs got in
      rw (fan_out-following ids entry author fs s u regular got d quiet)
        (pushed_le (mem? u fs) entry (following u s) (b u))

  -- A fan-out keeps every home timeline within 800 entries, for a celebrity or a regular author
  -- and whether or not the follower IDs can be fetched, if they arrive without repetition and the
  -- pipelines meet no error, on a server with the documented LIST commands.
  pub fan_out-IsBounded :
      (ids : Bytes → Result (List Bytes)) (entry author : Bytes) (s : State)
      → ((fs : List Bytes)
          → ids author ≡ ok fs
          → Distinct fs × ((exec (push_commands entry fs) s).1 ≡ none))
      → (exec (set (celeb_key author) (codes "1") 3600 ∷ []) s).1 ≡ none
      → IsBounded s
      → IsBounded (fan_out r ids entry author s)
  fan_out-IsBounded ids entry author s fine flag b u =
      elim (Bool-cases (leb (or_zero (exists_key (celeb_key author) s)) 0)) [
        | inl no_flag ↦
            elim (Bool-cases (
              reaches_threshold
                (hget_int64 (user_counts_key author) (codes "follower_count") s).0)) [
                  | inl many ↦ rw (fan_out_celebrity ids entry author s u (inr many) flag) (b u)
                  | inr few ↦
                      regular_fan_out-IsBounded ids entry author s (ids author) refl fine
                        (record { no_flag = ground arith; few = few }) b u
                ]
        | inr flagged ↦ rw (fan_out_celebrity ids entry author s u (inl (ground arith)) flag) (b u)
      ]
