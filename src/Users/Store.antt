-- ===== src/Users/Store.antt =====
-- The tables of apps/user-service, as the queries of apps/user-service/db/query.sql read and write
-- them. A time is a number; a count is a natural number, since no query makes it negative.
use twitter_microservices.Prelude.{
  ℕ, ◌+◌, ◌-◌, Bool, false, ◌&&◌, ◌||◌, Option, none, some, List, [], ◌∷◌, ◌++◌, Bytes, codes, ◌=?◌,
  if◌then◌else◌, ℤ, pos,
}
use twitter_microservices.Shared.Errors.{no_rows, pg, ok, err}
use twitter_microservices.Shared.Outbox.{Row}
use twitter_microservices.Shared.Tx.{Tx}

-- db.User
pub record User : Type 0 where
  pub id : Bytes
  pub email : Bytes
  pub username : Option Bytes
  pub display_name : Option Bytes
  pub avatar_url : Option Bytes
  pub header_image_url : Option Bytes
  pub bio : Option Bytes
  pub website_url : Option Bytes
  pub location : Option Bytes
  pub follower_count : ℕ
  pub following_count : ℕ
  pub created_at : ℤ
  pub updated_at : ℤ

-- A row of follows.
pub record Follow : Type 0 where
  pub follower_id : Bytes
  pub followee_id : Bytes
  pub created_at : ℤ

pub record Tables : Type 0 where
  pub users : List User
  pub follows : List Follow
  pub outbox : List Row
  -- the last value of the sequence behind outbox.id
  pub last_outbox_id : ℕ
  -- the clock of the database, which `now()` reads
  pub clock : ℤ

abbrev pub find_user : Bytes → List User → Option User
find_user id [] = none
find_user id (u ∷ us) = if u.id =? id then some u else find_user id us

-- GetUserByID
unfoldable pub get_user_by_id : Bytes → Tx Tables User
get_user_by_id id t = elim (find_user id t.users) [ none ↦ (err no_rows, t) | some u ↦ (ok u, t) ]

abbrev pub is_pair : Bytes → Bytes → Follow → Bool
is_pair follower followee f = f.follower_id =? follower && f.followee_id =? followee

abbrev pub has_follow : Bytes → Bytes → List Follow → Bool
has_follow follower followee [] = false
has_follow follower followee (f ∷ fs) =
    is_pair follower followee f || has_follow follower followee fs

-- CreateFollow: the number of rows affected. The CHECK of the table refuses a self-follow.
unfoldable pub create_follow : Bytes → Bytes → Tx Tables ℕ
create_follow follower followee t =
    if follower =? followee
    then (err (pg (codes "23514")), t)
    else if has_follow follower followee t.follows
    then (ok 0, t)
    else (
      ok 1,
      record t {
        follows =
            record { follower_id = follower; followee_id = followee; created_at = t.clock }
            ∷ t.follows;
      },
    )

abbrev pub without_follow : Bytes → Bytes → List Follow → List Follow
without_follow follower followee [] = []
without_follow follower followee (f ∷ fs) =
    let rest = without_follow follower followee fs in
    if is_pair follower followee f then rest else f ∷ rest

-- DeleteFollow
unfoldable pub delete_follow : Bytes → Bytes → Tx Tables (Unit {0})
delete_follow follower followee t =
    (ok tt, record t { follows = without_follow follower followee t.follows })

-- UPDATE users SET … WHERE id = $1
abbrev pub update_users : Bytes → (User → User) → List User → List User
update_users id f [] = []
update_users id f (u ∷ us) = (if u.id =? id then f u else u) ∷ update_users id f us

abbrev pub more_followers : User → User
more_followers u = record u { follower_count = u.follower_count + 1 }

-- GREATEST(follower_count - 1, 0)
abbrev pub fewer_followers : User → User
fewer_followers u = record u { follower_count = u.follower_count - 1 }

abbrev pub more_following : User → User
more_following u = record u { following_count = u.following_count + 1 }

abbrev pub fewer_following : User → User
fewer_following u = record u { following_count = u.following_count - 1 }

-- IncrementFollowerCount
unfoldable pub increment_follower_count : Bytes → Tx Tables (Unit {0})
increment_follower_count id t = (ok tt, record t { users = update_users id more_followers t.users })

-- DecrementFollowerCount
unfoldable pub decrement_follower_count : Bytes → Tx Tables (Unit {0})
decrement_follower_count id t =
    (ok tt, record t { users = update_users id fewer_followers t.users })

-- IncrementFollowingCount
unfoldable pub increment_following_count : Bytes → Tx Tables (Unit {0})
increment_following_count id t =
    (ok tt, record t { users = update_users id more_following t.users })

-- DecrementFollowingCount
unfoldable pub decrement_following_count : Bytes → Tx Tables (Unit {0})
decrement_following_count id t =
    (ok tt, record t { users = update_users id fewer_following t.users })

-- InsertOutbox
unfoldable pub insert_outbox : Bytes → Bytes → Bytes → Bytes → Tx Tables (Unit {0})
insert_outbox topic key payload trace_id t = (
  ok tt,
  record t {
    outbox =
        t.outbox
        ++ record {
          id = pos (t.last_outbox_id + 1);
          topic = topic;
          key = key;
          payload = payload;
          trace_id = trace_id;
        }
          ∷ [];
    last_outbox_id = t.last_outbox_id + 1;
  },
)
