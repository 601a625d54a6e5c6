-- ===== src/Users/Lists/Joined.antt =====
-- What the join of follows and users gives: one row for each follow, each with another user.
use twitter_microservices.Prelude.{
  ◌≤◌, ◌≡◌, ◌≢◌, inl, inr, ◌∙◌, sym, Bool, true, false, Option, some, List, [], ◌∷◌, Bytes, ◌=?◌,
  arith, Bool-cases, Option-cases, bytes_eq_iff, All, length, IsInt64,
}
use twitter_microservices.Users.Store.{User, Follow, Tables, find_user, has_follow}
use twitter_microservices.Users.Follows.Counts.{Single}
use twitter_microservices.Users.Rows.{Listed, Side, followers, following, near, far, joined}
use twitter_microservices.Users.Lists.Order.{AreApart}

find_user-id : (id : Bytes) (us : List User) (u : User) → find_user id us ≡ some u → u.id ≡ id
find_user-id id [] u h = absurd (ground arith)
find_user-id id (x ∷ us) u h = elim (Bool-cases (x.id =? id)) [
  | inl here ↦ let same : x ≡ u = ground arith in rw (← same) ((bytes_eq_iff x.id id).0 here)
  | inr there ↦ find_user-id id us u (ground arith)
]

-- A row of follows with this user on the near side and that one on the far side.
abbrev has_side : Side → Bytes → Bytes → List Follow → Bool
has_side followers x id fs = has_follow x id fs
has_side following x id fs = has_follow id x fs

has_side-tail :
    (side : Side) (x id : Bytes) (f : Follow) (fs : List Follow)
    → has_side side x id (f ∷ fs) ≡ false
    → has_side side x id fs ≡ false
has_side-tail followers x id f fs h = ground arith
has_side-tail following x id f fs h = ground arith

has_side-head :
    (side : Side) (x id : Bytes) (f : Follow) (fs : List Follow)
    → has_side side x id (f ∷ fs) ≡ false
    → (near side f =? id) ≡ true
    → far side f ≢ x
has_side-head followers x id f fs h n e =
    ground (arith, bytes_eq_iff f.follower_id x, bytes_eq_iff f.followee_id id)
has_side-head following x id f fs h n e =
    ground (arith, bytes_eq_iff f.followee_id x, bytes_eq_iff f.follower_id id)

far_apart :
    (side : Side) (x id : Bytes) (fs : List Follow)
    → has_side side x id fs ≡ false
    → All (λ g. (near side g =? id) ≡ true → far side g ≢ x) fs
far_apart side x id [] h = tt
far_apart side x id (f ∷ fs) h =
    (has_side-head side x id f fs h, far_apart side x id fs (has_side-tail side x id f fs h))

has_side_of_new :
    (side : Side) (id : Bytes) (f : Follow) (fs : List Follow)
    → (near side f =? id) ≡ true
    → has_follow f.follower_id f.followee_id fs ≡ false
    → has_side side (far side f) id fs ≡ false
has_side_of_new followers id f fs n new = rw (← (bytes_eq_iff f.followee_id id).0 n) new
has_side_of_new following id f fs n new = rw (← (bytes_eq_iff f.follower_id id).0 n) new

module _ (side : Side) (viewer : Option Bytes) (id : Bytes) (t : Tables) where
  -- What holds of the row of every follow of the user holds of every joined row.
  All-joined :
      (P : Listed → Type 0) (Q : Follow → Type 0) (fs : List Follow)
      → ((f : Follow) (u : User) (b : Bool)
          → Q f
          → (near side f =? id) ≡ true
          → u.id ≡ far side f
          → P (record { user = u; followed_at = f.created_at; is_following_viewer = b }))
      → All Q fs
      → All P (joined side viewer id t fs)
  unfolding joined
  All-joined P Q [] make q = tt
  All-joined P Q (f ∷ fs) make (q, qs) = elim (Bool-cases (near side f =? id)) [
    | inr other ↦ rw other (All-joined P Q fs make qs)
    | inl ours ↦ elim (Option-cases (find_user (far side f) t.users)) [
      | inl missing ↦ rw (ours, missing) (All-joined P Q fs make qs)
      | inr (u, found) ↦
          rw (ours, found)
            (
              make f u _ q ours (find_user-id (far side f) t.users u found),
              All-joined P Q fs make qs,
            )
    ]
  ]

  pub length-joined : (fs : List Follow) → length (joined side viewer id t fs) ≤ length fs
  unfolding joined
  length-joined [] = omega arith
  length-joined (f ∷ fs) = elim (Option-cases (find_user (far side f) t.users)) [
    | inl missing ↦ rw missing (ground (arith, length-joined fs))
    | inr (u, found) ↦ rw found (ground (arith, length-joined fs))
  ]

  -- No two rows have the same user.
  pub joined-AreApart : (fs : List Follow) → Single fs → AreApart (joined side viewer id t fs)
  unfolding joined
  joined-AreApart [] s = tt
  joined-AreApart (f ∷ fs) (new, s) = elim (Bool-cases (near side f =? id)) [
    | inr other ↦ rw other (joined-AreApart fs s)
    | inl ours ↦ elim (Option-cases (find_user (far side f) t.users)) [
      | inl missing ↦ rw (ours, missing) (joined-AreApart fs s)
      | inr (u, found) ↦
          rw (ours, found)
            (
              All-joined (λ r. u.id ≢ r.user.id)
                  (λ g. (near side g =? id) ≡ true → far side g ≢ far side f) fs
                  (λ g v b apart near_g v_id same.
                    apart near_g (sym v_id ∙ sym same ∙ find_user-id (far side f) t.users u found))
                  (far_apart side (far side f) id fs (has_side_of_new side id f fs ours new)),
              joined-AreApart fs s,
            )
    ]
  ]

  pub joined-IsInt64 :
      (fs : List Follow)
      → All (λ f. IsInt64 f.created_at) fs
      → All (λ r. IsInt64 r.followed_at) (joined side viewer id t fs)
  joined-IsInt64 fs h = All-joined _ (λ f. IsInt64 f.created_at) fs (λ f u b q n e. q) h
