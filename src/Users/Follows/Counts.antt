-- ===== src/Users/Follows/Counts.antt =====
-- The counts in the table users against the rows of the table follows.
use twitter_microservices.Prelude.{
  ℤ, ℕ, suc, ◌+◌, ◌≡◌, refl, true, false, List, [], ◌∷◌, Bytes, ◌=?◌, if◌then◌else◌, arith, ◌⊎◌,
  All, bytes_eq_iff, Bool-cases, inl, inr,
}
use twitter_microservices.Users.Store.{
  User, Follow, Tables, is_pair, has_follow, without_follow, update_users, more_followers,
  fewer_followers, more_following, fewer_following,
}

-- How many rows have this followee, and how many this follower.
abbrev pub followers_of : Bytes → List Follow → ℕ
followers_of id [] = 0
followers_of id (f ∷ fs) =
    let rest = followers_of id fs in if f.followee_id =? id then suc rest else rest

abbrev pub followings_of : Bytes → List Follow → ℕ
followings_of id [] = 0
followings_of id (f ∷ fs) =
    let rest = followings_of id fs in if f.follower_id =? id then suc rest else rest

-- The primary key of follows.
abbrev pub Single : List Follow → Type 0
Single [] = Unit
Single (f ∷ fs) = (has_follow f.follower_id f.followee_id fs ≡ false) × Single fs

pub record IsCounted (fs : List Follow) (u : User) : Type 0 where
  pub followers : u.follower_count ≡ followers_of u.id fs
  pub followings : u.following_count ≡ followings_of u.id fs

-- The two denormalised counts of every user are the numbers of rows in follows.
pub record IsConsistent (t : Tables) : Type 0 where
  pub counted : All (IsCounted t.follows) t.users
  pub single : Single t.follows

abbrev pub pair : Bytes → Bytes → ℤ → Follow
pair follower followee at = record {
  follower_id = follower;
  followee_id = followee;
  created_at = at;
}

IsCounted-follow :
    (er ee : Bytes) (at : ℤ) (fs : List Follow) (us : List User)
    → All (IsCounted fs) us
    → All
        (IsCounted (pair er ee at ∷ fs))
        (update_users er more_following (update_users ee more_followers us))
IsCounted-follow er ee at fs [] c = tt
IsCounted-follow er ee at fs (u ∷ us) (c, cs) = (
  ground (
    arith,
    bytes_eq_iff u.id er,
    bytes_eq_iff u.id ee,
    bytes_eq_iff er u.id,
    bytes_eq_iff ee u.id,
  ),
  IsCounted-follow er ee at fs us cs,
)

pub without_follow_none :
    (er ee : Bytes) (fs : List Follow) → has_follow er ee fs ≡ false → without_follow er ee fs ≡ fs
without_follow_none er ee [] h = refl
without_follow_none er ee (f ∷ fs) h = ground (arith, without_follow_none er ee fs)

-- A deleted row counted once for its followee and once for its follower.
count_without :
    (er ee id : Bytes) (fs : List Follow)
    → Single fs
    → has_follow er ee fs ≡ true
    → (followers_of id fs ≡ followers_of id (without_follow er ee fs) + (if ee =? id then 1 else 0))
      × (followings_of id fs
          ≡ followings_of id (without_follow er ee fs) + (if er =? id then 1 else 0))
count_without er ee id [] s h = cc
count_without er ee id (f ∷ fs) s h = elim (Bool-cases (is_pair er ee f)) [
  | inl here ↦ (
    ground (
      arith,
      bytes_eq_iff f.follower_id er,
      bytes_eq_iff f.followee_id ee,
      without_follow_none er ee fs,
    ),
    ground (
      arith,
      bytes_eq_iff f.follower_id er,
      bytes_eq_iff f.followee_id ee,
      without_follow_none er ee fs,
    ),
  )
  | inr other ↦
      (ground (arith, count_without er ee id fs s.1), ground (arith, count_without er ee id fs s.1))
]

IsCounted-unfollow :
    (er ee : Bytes) (fs : List Follow) (us : List User)
    → Single fs
    → has_follow er ee fs ≡ true
    → All (IsCounted fs) us
    → All
        (IsCounted (without_follow er ee fs))
        (update_users er fewer_following (update_users ee fewer_followers us))
IsCounted-unfollow er ee fs [] s h c = tt
IsCounted-unfollow er ee fs (u ∷ us) s h (c, cs) = (
  ground (
    arith,
    count_without er ee u.id fs s h,
    bytes_eq_iff u.id er,
    bytes_eq_iff u.id ee,
    bytes_eq_iff er u.id,
    bytes_eq_iff ee u.id,
  ),
  IsCounted-unfollow er ee fs us s h cs,
)

has_follow-without :
    (er ee a b : Bytes) (fs : List Follow)
    → has_follow a b fs ≡ false
    → has_follow a b (without_follow er ee fs) ≡ false
has_follow-without er ee a b [] h = refl
has_follow-without er ee a b (f ∷ fs) h = ground (arith, has_follow-without er ee a b fs)

Single-without : (er ee : Bytes) (fs : List Follow) → Single fs → Single (without_follow er ee fs)
Single-without er ee [] s = tt
Single-without er ee (f ∷ fs) s = elim (Bool-cases (is_pair er ee f)) [
  | inl gone ↦ rw gone (Single-without er ee fs s.1)
  | inr kept ↦
      rw kept
        (has_follow-without er ee f.follower_id f.followee_id fs s.0, Single-without er ee fs s.1)
]

-- Adding a row that was not there, with both increments, keeps the counts.
pub follow-IsConsistent :
    (er ee : Bytes) (t t' : Tables)
    → has_follow er ee t.follows ≡ false
    → IsConsistent t
    → t'.users ≡ update_users er more_following (update_users ee more_followers t.users)
    → t'.follows ≡ pair er ee t.clock ∷ t.follows
    → IsConsistent t'
follow-IsConsistent er ee t t' new c us fs = record {
  counted = rw (us, fs) (IsCounted-follow er ee t.clock t.follows t.users c.counted);
  single = rw fs (new, c.single);
}

-- Deleting a row that was there, with both decrements, keeps the counts.
pub unfollow-IsConsistent :
    (er ee : Bytes) (t t' : Tables)
    → has_follow er ee t.follows ≡ true
    → IsConsistent t
    → t'.users ≡ update_users er fewer_following (update_users ee fewer_followers t.users)
    → t'.follows ≡ without_follow er ee t.follows
    → IsConsistent t'
unfollow-IsConsistent er ee t t' old c us fs = record {
  counted = rw (us, fs) (IsCounted-unfollow er ee t.follows t.users c.single old c.counted);
  single = rw fs (Single-without er ee t.follows c.single);
}

-- A user with the ID has the count in the list.
abbrev pub HasFollowers : Bytes → ℕ → List User → Type 0
HasFollowers id n [] = ⊥
HasFollowers id n (u ∷ us) = ((u.id ≡ id) × (u.follower_count ≡ n)) ⊎ HasFollowers id n us

-- The count of a user drops though no row went.
drifted :
    (er ee : Bytes) (n : ℕ) (fs : List Follow) (us : List User)
    → HasFollowers ee (suc n) us
    → All (IsCounted fs) us
    → ¬ All (IsCounted fs) (update_users er fewer_following (update_users ee fewer_followers us))
drifted er ee n fs [] h c d = h
drifted er ee n fs (u ∷ us) (inl (same, count)) (c, cs) (d, ds) =
    ground (arith, bytes_eq_iff u.id er, bytes_eq_iff u.id ee, c.followers, d.followers)
drifted er ee n fs (u ∷ us) (inr h) (c, cs) (d, ds) = drifted er ee n fs us h cs ds

pub unfollow-drifts :
    (er ee : Bytes) (n : ℕ) (t t' : Tables)
    → has_follow er ee t.follows ≡ false
    → HasFollowers ee (suc n) t.users
    → IsConsistent t
    → t'.users ≡ update_users er fewer_following (update_users ee fewer_followers t.users)
    → t'.follows ≡ without_follow er ee t.follows
    → ¬ IsConsistent t'
unfollow-drifts er ee n t t' none_there h c us fs d =
    drifted er ee n t.follows t.users h c.counted
      (rw (us, fs, without_follow_none er ee t.follows none_there) at d.counted)
