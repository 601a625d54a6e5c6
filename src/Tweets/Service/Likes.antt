-- ===== src/Tweets/Service/Likes.antt =====
-- The like counts in the table tweets against the rows of the table likes.
use twitter_microservices.Prelude.{
  ℕ, suc, ◌+◌, ◌≡◌, refl, sym, ap, subst, Bool, true, false, List, [], ◌∷◌, Bytes, codes, ◌=?◌,
  if◌then◌else◌, arith, All, bytes_eq_iff, Bool-cases, Option-cases, inl, inr, pos, negsuc,
}
use twitter_microservices.Shared.Errors.{Result, ok, err}
use twitter_microservices.Shared.Events.{TweetLikedEvent}
use twitter_microservices.Shared.Tx.{IsAtomic, exec_tx_keeps, state_then_pure}
use twitter_microservices.Tweets.Store.{
  Tweet, Like, Tables, is_like, has_like, new_like, without_like, update_tweets, more_likes,
  fewer_likes, find_tweet, get_tweet_by_id,
}
use twitter_microservices.Tweets.Service.{
  Env, incr_count, liked_event, like_tx, like, unlike_tx, unlike,
}

-- How many rows have this tweet.
abbrev pub likes_of : Bytes → List Like → ℕ
likes_of id [] = 0
likes_of id (l ∷ ls) = let rest = likes_of id ls in if l.tweet_id =? id then suc rest else rest

-- The primary key of likes.
abbrev pub Single : List Like → Type 0
Single [] = Unit
Single (l ∷ ls) = (has_like l.user_id l.tweet_id ls ≡ false) × Single ls

abbrev pub IsCounted : List Like → Tweet → Type 0
IsCounted ls t = t.like_count ≡ likes_of t.id ls

-- The like count of every tweet is the number of its rows in likes.
pub record IsConsistent (s : Tables) : Type 0 where
  pub counted : All (IsCounted s.likes) s.tweets
  pub single : Single s.likes

IsCounted-like :
    (user tweet : Bytes) (ls : List Like) (ts : List Tweet)
    → All (IsCounted ls) ts
    → All (IsCounted (new_like user tweet ∷ ls)) (update_tweets tweet more_likes ts)
IsCounted-like user tweet ls [] c = tt
IsCounted-like user tweet ls (t ∷ ts) (c, cs) = (
  ground (arith, bytes_eq_iff t.id tweet, bytes_eq_iff tweet t.id),
  IsCounted-like user tweet ls ts cs,
)

without_like_none :
    (user tweet : Bytes) (ls : List Like)
    → has_like user tweet ls ≡ false
    → without_like user tweet ls ≡ ls
without_like_none user tweet [] h = refl
without_like_none user tweet (l ∷ ls) h = ground (arith, without_like_none user tweet ls)

-- A deleted row counted once for its tweet.
likes_of-without_like :
    (user tweet id : Bytes) (ls : List Like)
    → Single ls
    → has_like user tweet ls ≡ true
    → likes_of id ls ≡ likes_of id (without_like user tweet ls) + (if tweet =? id then 1 else 0)
likes_of-without_like user tweet id [] s h = cc
likes_of-without_like user tweet id (l ∷ ls) s h = elim (Bool-cases (is_like user tweet l)) [
  | inl here ↦ ground (
    arith,
    bytes_eq_iff l.user_id user,
    bytes_eq_iff l.tweet_id tweet,
    without_like_none user tweet ls,
  )
  | inr other ↦ ground (arith, likes_of-without_like user tweet id ls s.1)
]

IsCounted-unlike :
    (user tweet : Bytes) (ls : List Like) (ts : List Tweet)
    → Single ls
    → has_like user tweet ls ≡ true
    → All (IsCounted ls) ts
    → All (IsCounted (without_like user tweet ls)) (update_tweets tweet fewer_likes ts)
IsCounted-unlike user tweet ls [] s h c = tt
IsCounted-unlike user tweet ls (t ∷ ts) s h (c, cs) = (
  ground (
    arith,
    likes_of-without_like user tweet t.id ls s h,
    bytes_eq_iff t.id tweet,
    bytes_eq_iff tweet t.id,
  ),
  IsCounted-unlike user tweet ls ts s h cs,
)

has_like-without_like :
    (user tweet a b : Bytes) (ls : List Like)
    → has_like a b ls ≡ false
    → has_like a b (without_like user tweet ls) ≡ false
has_like-without_like user tweet a b [] h = refl
has_like-without_like user tweet a b (l ∷ ls) h =
    ground (arith, has_like-without_like user tweet a b ls)

Single-without_like :
    (user tweet : Bytes) (ls : List Like) → Single ls → Single (without_like user tweet ls)
Single-without_like user tweet [] s = tt
Single-without_like user tweet (l ∷ ls) s = elim (Bool-cases (is_like user tweet l)) [
  | inl gone ↦ rw gone (Single-without_like user tweet ls s.1)
  | inr kept ↦ rw kept (
    has_like-without_like user tweet l.user_id l.tweet_id ls s.0,
    Single-without_like user tweet ls s.1,
  )
]

after_like :
    (user tweet : Bytes) (s s' : Tables)
    → has_like user tweet s.likes ≡ false
    → IsConsistent s
    → s'.tweets ≡ update_tweets tweet more_likes s.tweets
    → s'.likes ≡ new_like user tweet ∷ s.likes
    → IsConsistent s'
after_like user tweet s s' new c ts ls = record {
  counted = rw (ts, ls) (IsCounted-like user tweet s.likes s.tweets c.counted);
  single = rw ls (new, c.single);
}

after_unlike :
    (user tweet : Bytes) (s s' : Tables)
    → has_like user tweet s.likes ≡ true
    → IsConsistent s
    → s'.tweets ≡ update_tweets tweet fewer_likes s.tweets
    → s'.likes ≡ without_like user tweet s.likes
    → IsConsistent s'
after_unlike user tweet s s' old c ts ls = record {
  counted = rw (ts, ls) (IsCounted-unlike user tweet s.likes s.tweets c.single old c.counted);
  single = rw ls (Single-without_like user tweet s.likes c.single);
}

module _ (env : Env) where
  open env use {exec_tx, marshal, has_redis}

  like_tx-IsConsistent :
      (user tweet : Bytes) (evt : TweetLikedEvent) (m : Result Bytes) (s s' : Tables)
      (already : Bool)
      → marshal.liked evt ≡ m
      → IsConsistent s
      → like_tx env user tweet evt s ≡ (ok already, s')
      → IsConsistent s'
  unfolding like_tx
  like_tx-IsConsistent user tweet evt m s s' already e c h =
      elim (Bool-cases (has_like user tweet s.likes)) [
        | inl old ↦ subst IsConsistent (ground arith) c
        | inr new ↦ by_payload m e new
      ]
    where
      by_payload :
          (m : Result Bytes)
          → marshal.liked evt ≡ m
          → has_like user tweet s.likes ≡ false
          → IsConsistent s'
      by_payload (ok b) q new = after_like user tweet s s' new c (ground arith) (ground arith)
      by_payload (err x) q new = absurd (ground arith)

  -- Where the transaction is atomic, Like keeps the like count of every tweet equal to the number
  -- of its rows, and the rows single, on every branch.
  pub like-keeps_counts :
      (user tweet : Bytes) (s : Tables)
      → IsAtomic exec_tx
      → IsConsistent s
      → IsConsistent (like env user tweet s).1
  unfolding like get_tweet_by_id
  like-keeps_counts user tweet s atomic c = elim (Option-cases (find_tweet tweet s.tweets)) [
    | inl missing ↦ rw (get_tweet_by_id, missing) c
    | inr (t, found) ↦
        let evt = liked_event env user tweet t in
        rw (get_tweet_by_id, found)
          (subst IsConsistent
            (sym (
              state_then_pure (exec_tx Bool (like_tx env user tweet evt))
                (λ already. (
                  already,
                  if already then [] else incr_count has_redis tweet (codes "like_count") (pos 1),
                ))
                s))
            (exec_tx_keeps IsConsistent Bool (like_tx env user tweet evt) s atomic c
              (λ already s' h.
                like_tx-IsConsistent user tweet evt (marshal.liked evt) s s' already refl c h)))
  ]

  -- Where the transaction is atomic, Unlike of a like that exists keeps the like counts and the
  -- rows in step.
  pub unlike-keeps_counts :
      (user tweet : Bytes) (s : Tables)
      → IsAtomic exec_tx
      → has_like user tweet s.likes ≡ true
      → IsConsistent s
      → IsConsistent (unlike env user tweet s).1
  unfolding unlike unlike_tx
  unlike-keeps_counts user tweet s atomic old c =
      subst IsConsistent
        (sym (
          state_then_pure (exec_tx Unit (unlike_tx env user tweet))
            (λ done. incr_count has_redis tweet (codes "like_count") (negsuc 0)) s))
        (exec_tx_keeps IsConsistent Unit (unlike_tx env user tweet) s atomic c (λ done s' h.
          after_unlike user tweet s s' old c
            (sym (ap (λ (r : Result (Unit {0}) × Tables). r.1.tweets) h))
            (sym (ap (λ (r : Result (Unit {0}) × Tables). r.1.likes) h))))
