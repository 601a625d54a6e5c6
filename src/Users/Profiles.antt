-- ===== src/Users/Profiles.antt =====
-- Service.Provision, GetProfile, UpdateProfile, GetFollowState and RefreshAllCounts of
-- apps/user-service/internal/user/service.go over the queries of Users/Queries.
pub mod Calls
pub mod Update
use twitter_microservices.Prelude.{
  ℕ, ◌+◌, Bool, true, false, not, ◌&&◌, ◌||◌, Option, none, some, List, [], ◌∷◌, ◌++◌, Bytes, codes,
  ◌=?◌, if◌then◌else◌, leb, ltb, ◌==◌, ℤ, pos, map, reverse,
}
use twitter_microservices.Text.Decimal.{format_int}
use twitter_microservices.Shared.Errors.{
  Error, app, err_conflict, Result, ok, err, deref, non_empty, is_conflict,
}
use twitter_microservices.Shared.Events.{UserCreatedEvent, UserUpdatedEvent}
use twitter_microservices.Shared.Kafka.{topic_user_created, topic_user_updated}
use twitter_microservices.Shared.Redis.{Command, hset}
use twitter_microservices.Shared.Tx.{Tx, pure, fail, map_tx, ◌>>=◌, ◌>>◌}
use twitter_microservices.Users.Store.{User, Tables, get_user_by_id}
use twitter_microservices.Users.Queries.{
  UpdateProfileParams, provision_user, update_profile, is_following, is_any_of, followed_targets,
}
use twitter_microservices.Users.Follows.{Env, user_counts_key, outbox_enqueue}

abbrev is_ascii : Bytes → Bool
is_ascii [] = true
is_ascii (c ∷ s) = ltb c 128 && is_ascii s

abbrev is_space : ℕ → Bool
is_space c = (leb 9 c && leb c 13) || c == 32

abbrev trim_left : Bytes → Bytes
trim_left [] = []
trim_left (c ∷ s) = let rest = trim_left s in if is_space c then rest else c ∷ s

abbrev lower : ℕ → ℕ
lower c = if leb 65 c && leb c 90 then c + 32 else c

-- strings.ToLower(strings.TrimSpace(email)); what it makes of a text that is not ASCII, by the tables
-- of Unicode, is a parameter.
unfoldable pub normalised : (Bytes → Bytes) → Bytes → Bytes
normalised unicode email =
    if is_ascii email
    then map lower (reverse (trim_left (reverse (trim_left email))))
    else unicode email

-- The two fields of user:counts.
abbrev pub counts_fields : ℕ → ℕ → List (Bytes × Bytes)
counts_fields followers followings =
    (codes "follower_count", format_int (pos followers))
    ∷ (codes "following_count", format_int (pos followings))
    ∷ []

-- The pipeline of RefreshAllCounts over the rows of ListAllUserCounts.
unfoldable pub refresh_commands : List User → List Command
unfolding user_counts_key
refresh_commands [] = []
refresh_commands (u ∷ us) =
    hset (user_counts_key u.id) (counts_fields u.follower_count u.following_count)
    ∷ refresh_commands us

-- What Provision returns, and what it sends to Redis.
pub record Provisioned : Type 0 where
  pub user : User
  pub created : Bool
  pub sent : List Command

-- Profile
pub record Profile : Type 0 where
  pub user : User
  pub is_following : Bool

-- What UpdateProfile returns, and the calls of keycloak.Admin.UpdateUsername after the commit.
pub record Updated : Type 0 where
  pub user : User
  pub synced : List (Bytes × Bytes)

-- The after-commit function of UpdateProfile.
abbrev pub username_sync : Option Bytes → User → List (Bytes × Bytes)
username_sync none u = []
username_sync (some name) u = elim u.username [ none ↦ [] | some n ↦ (u.id, n) ∷ [] ]

module _ (env : Env) where
  open env use {exec_tx, has_redis, marshal_created, marshal_updated, lower_unicode}

  abbrev pub created_event : User → UserCreatedEvent
  created_event u = record {
    user_id = u.id;
    username = deref u.username;
    display_name = deref u.display_name;
    bio = deref u.bio;
    avatar_url = deref u.avatar_url;
    created_at = u.created_at;
  }

  abbrev pub updated_event : User → UserUpdatedEvent
  updated_event u = record {
    user_id = u.id;
    username = deref u.username;
    display_name = deref u.display_name;
    bio = deref u.bio;
    avatar_url = deref u.avatar_url;
  }

  -- The transaction of Provision.
  unfoldable pub provision_tx : Bytes → Bytes → Bytes → Tx Tables User
  unfolding provision_user non_empty deref
  provision_tx sub email display_name = do
    u ← map_tx (provision_user sub email (non_empty display_name))
    outbox_enqueue env topic_user_created u.id (marshal_created (created_event u))
    pure u

  abbrev pub seed_counts : User → Provisioned
  seed_counts u = record {
    user = u;
    created = true;
    sent = if has_redis then hset (user_counts_key u.id) (counts_fields 0 0) ∷ [] else [];
  }

  -- What a conflict comes to: the user with the same sub, or ErrConflict.
  abbrev pub existing_user : Result User × Tables → Result Provisioned × Tables
  existing_user (ok u, t) = (ok (record { user = u; created = false; sent = [] }), t)
  existing_user (err e, t) = (err (app err_conflict), t)

  abbrev pub after_provision_tx : Bytes → Result User × Tables → Result Provisioned × Tables
  after_provision_tx sub (ok u, t) = (ok (seed_counts u), t)
  after_provision_tx sub (err e, t) =
      if is_conflict e then existing_user (get_user_by_id sub t) else (err e, t)

  -- Provision
  unfoldable pub provision : Bytes → Bytes → Bytes → Tx Tables Provisioned
  unfolding get_user_by_id is_conflict normalised user_counts_key
  provision sub email display_name t =
      after_provision_tx sub
        (exec_tx User (provision_tx sub (normalised lower_unicode email) display_name) t)

  -- GetProfile
  unfoldable pub get_profile : Bytes → Bytes → Tx Tables Profile
  unfolding get_user_by_id is_following
  get_profile target viewer = do
    u ← map_tx (get_user_by_id target)
    following ←
        (if viewer =? [] || viewer =? target
          then pure false
          else map_tx (is_following viewer target))
    pure (record { user = u; is_following = following })

  -- The transaction of UpdateProfile.
  unfoldable pub update_profile_tx : Bytes → UpdateProfileParams → Tx Tables User
  unfolding update_profile deref
  update_profile_tx id p = do
    u ← map_tx (update_profile id p)
    outbox_enqueue env topic_user_updated id (marshal_updated (updated_event u))
    pure u

  -- UpdateProfile of the service
  unfoldable pub change_profile : Bytes → UpdateProfileParams → Tx Tables Updated
  change_profile id p = do
    u ← exec_tx User (update_profile_tx id p)
    pure (record { user = u; synced = username_sync p.username u })

  -- GetFollowState: the keys of the map, whose values are all true.
  unfoldable pub get_follow_state : Bytes → List Bytes → Tx Tables (List Bytes)
  unfolding followed_targets
  get_follow_state [] targets = pure []
  get_follow_state (c ∷ viewer) [] = pure []
  get_follow_state (c ∷ viewer) (x ∷ targets) = map_tx (followed_targets (c ∷ viewer) (x ∷ targets))

  -- The pipeline of RefreshAllCounts
  unfoldable pub refresh_all_counts : Tables → List Command
  unfolding refresh_commands
  refresh_all_counts t = if has_redis then refresh_commands t.users else []
