-- ===== src/Users/Lists.antt =====
-- Service.ListFollowers, ListFollowing and ListSuggestions of
-- apps/user-service/internal/user/service.go, and a client that follows the cursors.
pub mod Order
pub mod Joined
pub mod Pages
pub mod Walk
pub mod Suggested
use twitter_microservices.Prelude.{
  ℕ, zero, suc, Bool, false, Option, none, some, List, [], ◌∷◌, ◌++◌, Bytes, if◌then◌else◌, map,
  length, ℤ, pos,
}
use twitter_microservices.Shared.Errors.{Result, ok, err, non_empty}
use twitter_microservices.Shared.Ints.{to_int32}
use twitter_microservices.Shared.Tx.{Tx, fail, pure, map_tx, ◌>>=◌}
use twitter_microservices.Users.Cursor.{encode_follow_cursor, decode_follow_cursor}
use twitter_microservices.Users.Limits.{
  clamp_limit, default_list_limit, max_list_limit, default_suggestion_limit, max_suggestion_limit,
}
use twitter_microservices.Users.Rows.{
  Listed, Side, followers, following, int_eq, list_rows, list_user_suggestions,
}
use twitter_microservices.Users.Store.{User, Tables}

-- UserListItem
pub record UserListItem : Type 0 where
  pub user : User
  pub is_following : Bool

abbrev pub item : Listed → UserListItem
item r = record { user = r.user; is_following = r.is_following_viewer }

abbrev pub last_row : List Listed → Option Listed
last_row [] = none
last_row (r ∷ []) = some r
last_row (r ∷ s ∷ l) = last_row (s ∷ l)

abbrev pub cursor_after : Listed → Bytes
cursor_after r = encode_follow_cursor r.followed_at r.user.id

-- The cursor of the next page, if this one is full.
abbrev pub next_cursor : ℤ → List Listed → Option Bytes
next_cursor limit rows =
    if int_eq (to_int32 (pos (length rows))) limit
    then elim (last_row rows) [ none ↦ none | some r ↦ some (cursor_after r) ]
    else none

-- The suggestions are not followed, by the query.
abbrev pub suggested : User → UserListItem
suggested u = record { user = u; is_following = false }

module _ (text_lt : Bytes → Bytes → Bool) where
  abbrev pub page_of :
      Side → Bytes → Bytes → ℤ → Option (ℤ × Bytes) → Tx Tables (List UserListItem × Option Bytes)
  page_of side id viewer limit cursor = do
    rows ← map_tx (list_rows text_lt side (non_empty viewer) id cursor limit)
    pure (map item rows, next_cursor limit rows)

  -- The two functions are the same but for the query.
  abbrev pub list_side :
      Side → Bytes → Bytes → Option Bytes → ℤ → Tx Tables (List UserListItem × Option Bytes)
  list_side side id viewer cursor limit t = elim (decode_follow_cursor cursor) [
    | err e ↦ (err e, t)
    | ok c ↦ page_of side id viewer (clamp_limit limit default_list_limit max_list_limit) c t
  ]

  -- ListFollowers
  unfoldable pub list_followers :
      Bytes → Bytes → Option Bytes → ℤ → Tx Tables (List UserListItem × Option Bytes)
  unfolding list_rows non_empty encode_follow_cursor decode_follow_cursor clamp_limit
  list_followers = list_side followers

  -- ListFollowing
  unfoldable pub list_following :
      Bytes → Bytes → Option Bytes → ℤ → Tx Tables (List UserListItem × Option Bytes)
  unfolding list_rows non_empty encode_follow_cursor decode_follow_cursor clamp_limit
  list_following = list_side following

  -- ListSuggestions
  unfoldable pub list_suggestions : Bytes → ℤ → Tx Tables (List UserListItem)
  unfolding list_user_suggestions clamp_limit
  list_suggestions viewer limit = do
    rows ← map_tx (
        list_user_suggestions text_lt viewer
          (clamp_limit limit default_suggestion_limit max_suggestion_limit))
    pure (map suggested rows)
