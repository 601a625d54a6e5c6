-- ===== src/Users/Profiles/Update.antt =====
-- UpdateProfile on every branch.
use twitter_microservices.Prelude.{
  ◌≡◌, ◌⊎◌, inl, inr, true, false, none, some, Bytes, ◌=?◌, if◌then◌else◌,
}
use twitter_microservices.Shared.Errors.{
  Error, app, err_conflict, err_not_found, Result, ok, err, map_err, is_unique_violation,
}
use twitter_microservices.Shared.Tx.{IsAtomic}
use twitter_microservices.Users.Store.{User, Tables, find_user, update_users}
use twitter_microservices.Users.Queries.{UpdateProfileParams, is_taken, overlay, update_profile}
use twitter_microservices.Users.Follows.{Env}
use twitter_microservices.Users.Profiles.{Updated, update_profile_tx, change_profile, username_sync}

module _ (env : Env) where
  open env use {exec_tx, marshal_updated}

  -- The tables after an UpdateProfile that succeeded: the row of the user is the overlay, and all
  -- other rows, the follows and their counts are as they were.
  pub record IsUpdated (id : Bytes) (p : UpdateProfileParams) (t : Tables) (u v : User)
      (t' : Tables) : Type 0 where
    pub row : u ≡ overlay p t v
    pub free : is_taken id p.username t.users ≡ false
    pub users : t'.users ≡ update_users id (overlay p t) t.users
    pub follows : t'.follows ≡ t.follows

  update_profile_tx-missing :
      (id : Bytes) (p : UpdateProfileParams) (t : Tables)
      → find_user id t.users ≡ none
      → (update_profile_tx env id p t).0 ≡ err (app err_not_found)
  unfolding update_profile_tx map_err
  update_profile_tx-missing id p t h = rw (update_profile, h)

  update_profile_tx-taken :
      (id : Bytes) (p : UpdateProfileParams) (t : Tables) (v : User)
      → find_user id t.users ≡ some v
      → is_taken id p.username t.users ≡ true
      → (update_profile_tx env id p t).0 ≡ err (app err_conflict)
  unfolding update_profile_tx map_err is_unique_violation ◌=?◌
  update_profile_tx-taken id p t v found taken = rw (update_profile, found, taken)

  refused :
      (id : Bytes) (p : UpdateProfileParams) (t : Tables) (e : Error)
      → IsAtomic exec_tx
      → (update_profile_tx env id p t).0 ≡ err e
      → change_profile env id p t ≡ (err e, t)
  unfolding change_profile
  refused id p t e atomic h = rw (atomic.rolls_back User (update_profile_tx env id p) t e h)

  -- An UpdateProfile of a user who does not exist, or to a username that another user has, changes
  -- nothing and answers NOT_FOUND or CONFLICT, where the transactions are atomic.
  pub change_profile_refused :
      (id : Bytes) (p : UpdateProfileParams) (t : Tables)
      → IsAtomic exec_tx
      → (find_user id t.users ≡ none)
        ⊎ ((v : User) × (find_user id t.users ≡ some v) × (is_taken id p.username t.users ≡ true))
      → (change_profile env id p t ≡ (err (app err_not_found), t))
        ⊎ (change_profile env id p t ≡ (err (app err_conflict), t))
  change_profile_refused id p t atomic (inl missing) =
      inl (refused id p t (app err_not_found) atomic (update_profile_tx-missing id p t missing))
  change_profile_refused id p t atomic (inr (v, found, taken)) =
      inr (refused id p t (app err_conflict) atomic (update_profile_tx-taken id p t v found taken))

  -- What a call may come to, as a client who asks for the user `b` sees it.
  abbrev pub IsUpdateOf :
      (id : Bytes) → UpdateProfileParams → Tables → Bytes → Result Updated × Tables → Type 0
  IsUpdateOf id p t b r =
      ((e : Error) × (r ≡ (err e, t)))
      ⊎ ((v : User) × (t' : Tables) × (r ≡ (
        ok (record { user = overlay p t v; synced = username_sync p.username (overlay p t v) }),
        t',
      ))
          × (find_user id t.users ≡ some v)
          × (is_taken id p.username t.users ≡ false)
          × (find_user b t'.users ≡ (if b =? id then some (overlay p t v) else find_user b t.users))
          × (t'.follows ≡ t.follows))
