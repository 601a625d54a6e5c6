-- ===== src/Users/Queries.antt =====
-- The queries of apps/user-service/db/query.sql on single users: ProvisionUser, UpdateProfile,
-- IsFollowing, GetFollowState. The keys of the table users are those of
-- apps/user-service/migrations/000001_create_users.up.sql: id, email and username are unique.
use twitter_microservices.Prelude.{
  Bool, false, not, ◌&&◌, ◌||◌, Option, none, some, List, [], ◌∷◌, ◌++◌, Bytes, codes, ◌=?◌,
  if◌then◌else◌,
}
use twitter_microservices.Shared.Errors.{Error, no_rows, pg, ok, err}
use twitter_microservices.Shared.Tx.{Tx}
use twitter_microservices.Users.Store.{User, Follow, Tables, find_user, has_follow, update_users}

abbrev pub unique_violation : Error
unique_violation = pg (codes "23505")

abbrev pub has_id : Bytes → List User → Bool
has_id id [] = false
has_id id (u ∷ us) = u.id =? id || has_id id us

abbrev pub has_email : Bytes → List User → Bool
has_email email [] = false
has_email email (u ∷ us) = u.email =? email || has_email email us

-- The row that ProvisionUser inserts, with the defaults of the columns.
abbrev pub new_user : Bytes → Bytes → Option Bytes → Tables → User
new_user id email display_name t = record {
  id = id;
  email = email;
  username = none;
  display_name = display_name;
  avatar_url = none;
  header_image_url = none;
  bio = none;
  website_url = none;
  location = none;
  follower_count = 0;
  following_count = 0;
  created_at = t.clock;
  updated_at = t.clock;
}

-- ProvisionUser
unfoldable pub provision_user : Bytes → Bytes → Option Bytes → Tx Tables User
provision_user id email display_name t =
    if has_id id t.users || has_email email t.users then (err unique_violation, t) else (
      ok (new_user id email display_name t),
      record t { users = t.users ++ new_user id email display_name t ∷ [] },
    )

-- user.UpdateProfileParams: `none` does not change the field.
pub record UpdateProfileParams : Type 0 where
  pub username : Option Bytes
  pub display_name : Option Bytes
  pub avatar_url : Option Bytes
  pub header_image_url : Option Bytes
  pub bio : Option Bytes
  pub website_url : Option Bytes
  pub location : Option Bytes

abbrev pub coalesce : Option Bytes → Option Bytes → Option Bytes
coalesce none old = old
coalesce (some s) old = some s

-- The row that UpdateProfile leaves.
abbrev pub overlay : UpdateProfileParams → Tables → User → User
overlay p t u = record u {
  username = coalesce p.username u.username;
  display_name = coalesce p.display_name u.display_name;
  avatar_url = coalesce p.avatar_url u.avatar_url;
  header_image_url = coalesce p.header_image_url u.header_image_url;
  bio = coalesce p.bio u.bio;
  website_url = coalesce p.website_url u.website_url;
  location = coalesce p.location u.location;
  updated_at = t.clock;
}

abbrev has_username : Bytes → Option Bytes → Bool
has_username name none = false
has_username name (some s) = s =? name

-- Another row has the username.
abbrev pub is_taken : Bytes → Option Bytes → List User → Bool
is_taken id none us = false
is_taken id (some name) [] = false
is_taken id (some name) (u ∷ us) =
    (not (u.id =? id) && has_username name u.username) || is_taken id (some name) us

-- UpdateProfile
unfoldable pub update_profile : Bytes → UpdateProfileParams → Tx Tables User
update_profile id p t = elim (find_user id t.users) [
  | none ↦ (err no_rows, t)
  | some u ↦
      if is_taken id p.username t.users
      then (err unique_violation, t)
      else (ok (overlay p t u), record t { users = update_users id (overlay p t) t.users })
]

-- IsFollowing
unfoldable pub is_following : Bytes → Bytes → Tx Tables Bool
is_following follower followee t = (ok (has_follow follower followee t.follows), t)

abbrev pub is_any_of : Bytes → List Bytes → Bool
is_any_of id [] = false
is_any_of id (x ∷ xs) = x =? id || is_any_of id xs

abbrev pub followed_among : Bytes → List Bytes → List Follow → List Bytes
followed_among viewer targets [] = []
followed_among viewer targets (f ∷ fs) =
    let rest = followed_among viewer targets fs in
    if f.follower_id =? viewer && is_any_of f.followee_id targets
    then f.followee_id ∷ rest
    else rest

-- The query GetFollowState
unfoldable pub followed_targets : Bytes → List Bytes → Tx Tables (List Bytes)
followed_targets viewer targets t = (ok (followed_among viewer targets t.follows), t)
