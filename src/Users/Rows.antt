-- ===== src/Users/Rows.antt =====
-- The queries ListFollowers, ListFollowing and ListUserSuggestions of apps/user-service/db/query.sql.
-- How the database compares two texts (its collation) is a parameter.
use twitter_microservices.Prelude.{
  ℕ, suc, Bool, true, false, not, ◌&&◌, ◌||◌, Option, none, some, List, [], ◌∷◌, Bytes, codes, ◌=?◌,
  ◌==◌, ltb, if◌then◌else◌, take, ℤ, pos, negsuc,
}
use twitter_microservices.Shared.Errors.{pg, ok, err}
use twitter_microservices.Shared.Tx.{Tx}
use twitter_microservices.Users.Store.{User, Follow, Tables, find_user, has_follow}

abbrev pub keep : {A : Type 0} → (A → Bool) → List A → List A
keep p [] = []
keep p (x ∷ xs) = let rest = keep p xs in if p x then x ∷ rest else rest

abbrev pub int_lt : ℤ → ℤ → Bool
int_lt (pos a) (pos b) = ltb a b
int_lt (pos a) (negsuc b) = false
int_lt (negsuc a) (pos b) = true
int_lt (negsuc a) (negsuc b) = ltb b a

abbrev pub int_eq : ℤ → ℤ → Bool
int_eq (pos a) (pos b) = a == b
int_eq (pos a) (negsuc b) = false
int_eq (negsuc a) (pos b) = false
int_eq (negsuc a) (negsuc b) = a == b

-- LIMIT, whose number must not be negative.
abbrev pub limited : {A : Type 0} → ℤ → List A → Tx Tables (List A)
limited (pos n) xs t = (ok (take n xs), t)
limited (negsuc n) xs t = (err (pg (codes "2201W")), t)

-- ListFollowersRow and ListFollowingRow
pub record Listed : Type 0 where
  pub user : User
  pub followed_at : ℤ
  pub is_following_viewer : Bool

-- Which of the two lists of a user: the rows of follows that have the user on the near side.
pub data Side : Type 0 where
  followers following : Side

abbrev pub near : Side → Follow → Bytes
near followers f = f.followee_id
near following f = f.follower_id

abbrev pub far : Side → Follow → Bytes
far followers f = f.follower_id
far following f = f.followee_id

-- is_following_viewer
abbrev pub viewer_follows : Option Bytes → Bytes → List Follow → Bool
viewer_follows none id fs = false
viewer_follows (some viewer) id fs = has_follow viewer id fs

-- The joined rows; users.id is a key, so that a row of follows meets one user at most.
unfoldable pub joined : Side → Option Bytes → Bytes → Tables → List Follow → List Listed
joined side viewer id t [] = []
joined side viewer id t (f ∷ fs) =
    let rest = joined side viewer id t fs in
    if near side f =? id
    then elim (find_user (far side f) t.users) [
      | none ↦ rest
      | some u ↦
          record {
            user = u;
            followed_at = f.created_at;
            is_following_viewer = viewer_follows viewer u.id t.follows;
          }
          ∷ rest
    ]
    else rest

-- How many of the viewer's followees follow the user.
abbrev pub mutual_count : Bytes → Bytes → List Follow → List Follow → ℕ
mutual_count viewer id all [] = 0
mutual_count viewer id all (f ∷ fs) =
    let rest = mutual_count viewer id all fs in
    if f.followee_id =? id && has_follow viewer f.follower_id all then suc rest else rest

abbrev pub is_onboarded : User → Bool
is_onboarded u = elim u.username [ none ↦ false | some name ↦ true ]

abbrev pub is_candidate : Bytes → List Follow → User → Bool
is_candidate viewer fs u =
    not (u.id =? viewer) && (is_onboarded u && not (has_follow viewer u.id fs))

module _ (text_lt : Bytes → Bytes → Bool) where
  abbrev pub key_lt : ℤ × Bytes → ℤ × Bytes → Bool
  key_lt (at, id) (at', id') = int_lt at at' || (int_eq at at' && text_lt id id')

  abbrev pub key : Listed → ℤ × Bytes
  key r = (r.followed_at, r.user.id)

  -- The condition on the cursor.
  abbrev pub admits : Option (ℤ × Bytes) → Listed → Bool
  admits none r = true
  admits (some c) r = key_lt (key r) c

  abbrev pub insert_row : Listed → List Listed → List Listed
  insert_row r [] = r ∷ []
  insert_row r (s ∷ l) =
      let rest = insert_row r l in if key_lt (key r) (key s) then s ∷ rest else r ∷ s ∷ l

  -- ORDER BY created_at DESC, id DESC
  abbrev pub ordered : List Listed → List Listed
  ordered [] = []
  ordered (r ∷ l) = insert_row r (ordered l)

  -- ListFollowers and ListFollowing: the rows in their order, of these the ones that the cursor admits,
  -- of these the first.
  unfoldable pub list_rows :
      Side → Option Bytes → Bytes → Option (ℤ × Bytes) → ℤ → Tx Tables (List Listed)
  unfolding joined
  list_rows side viewer id cursor limit t =
      limited limit (keep (admits cursor) (ordered (joined side viewer id t t.follows))) t

  -- Whether the second user comes first: ORDER BY mutual_count DESC, follower_count DESC, id ASC.
  abbrev pub yields : Bytes → List Follow → User → User → Bool
  yields viewer fs u v =
      let m = mutual_count viewer u.id fs fs in
      let n = mutual_count viewer v.id fs fs in
      ltb m n
      || (m == n
          && (ltb u.follower_count v.follower_count
              || (u.follower_count == v.follower_count && text_lt v.id u.id)))

  abbrev pub insert_candidate : Bytes → List Follow → User → List User → List User
  insert_candidate viewer fs u [] = u ∷ []
  insert_candidate viewer fs u (v ∷ l) =
      let rest = insert_candidate viewer fs u l in
      if yields viewer fs u v then v ∷ rest else u ∷ v ∷ l

  abbrev pub ranked : Bytes → List Follow → List User → List User
  ranked viewer fs [] = []
  ranked viewer fs (u ∷ l) = insert_candidate viewer fs u (ranked viewer fs l)

  -- ListUserSuggestions
  unfoldable pub list_user_suggestions : Bytes → ℤ → Tx Tables (List User)
  list_user_suggestions viewer limit t =
      limited limit (ranked viewer t.follows (keep (is_candidate viewer t.follows) t.users)) t
