-- ===== src/Examples/Profiles.antt =====
-- The users of Examples/Users: calls one after the other, a new user, a new name, and their lists.
use mathlib.Core.List.{Perm}
use twitter_microservices.Prelude.{
  ◌≤◌, ◌≡◌, ◌≢◌, ap₂, refl, inl, inr, Bool, true, false, ◌||◌, ◌&&◌, none, some, List, [], ◌∷◌,
  Bytes, codes, ◌=?◌, ◌==◌, Bool-cases, ltb, pos, arith, All, map, length,
}
use twitter_microservices.Shared.Errors.{ok, non_empty, map_err}
use twitter_microservices.Examples.Tx.{committing-IsAtomic}
use twitter_microservices.Examples.Users.{user, tables, env}
use twitter_microservices.Users.Follows.Relation.{
  call_follow, call_unfollow, clock_at, relation, run, replay, run-relation,
}
use twitter_microservices.Users.Queries.{UpdateProfileParams}
use twitter_microservices.Users.Profiles.{provision_tx, provision}
use twitter_microservices.Users.Profiles.Calls.{provision_twice}
use twitter_microservices.Users.Rows.{followers, joined}
use twitter_microservices.Users.Lists.{UserListItem, item, list_suggestions}
use twitter_microservices.Shared.Walk.{walk}
use twitter_microservices.Users.Lists.Order.{IsOrder, IsSorted}
use twitter_microservices.Users.Lists.Walk.{page, list_walk_complete}
use twitter_microservices.Users.Lists.Suggested.{IsNews, list_suggestions-IsNews}

-- The order of texts by their bytes.
bytes_lt : Bytes → Bytes → Bool
bytes_lt [] [] = false
bytes_lt [] (b ∷ t) = true
bytes_lt (a ∷ s) [] = false
bytes_lt (a ∷ s) (b ∷ t) = ltb a b || (a == b && bytes_lt s t)

bytes_lt_irrefl : (s : Bytes) → bytes_lt s s ≡ false
unfolding bytes_lt
bytes_lt_irrefl [] = refl
bytes_lt_irrefl (a ∷ s) = ground (arith, bytes_lt_irrefl s)

bytes_lt_trans : (s t u : Bytes) → bytes_lt s t ≡ true → bytes_lt t u ≡ true → bytes_lt s u ≡ true
unfolding bytes_lt
bytes_lt_trans [] t [] h k = ground (arith)
bytes_lt_trans [] t (c ∷ u) h k = refl
bytes_lt_trans (a ∷ s) [] u h k = ground arith
bytes_lt_trans (a ∷ s) (b ∷ t) [] h k = ground arith
bytes_lt_trans (a ∷ s) (b ∷ t) (c ∷ u) h k = ground (arith, bytes_lt_trans s t u)

bytes_lt_total : (s t : Bytes) → s ≢ t → (bytes_lt s t || bytes_lt t s) ≡ true
unfolding bytes_lt
bytes_lt_total [] [] n = absurd (n refl)
bytes_lt_total [] (b ∷ t) n = refl
bytes_lt_total (a ∷ s) [] n = refl
bytes_lt_total (a ∷ s) (b ∷ t) n = elim (Bool-cases (a == b)) [
  | inl same ↦
      let e : a ≡ b = ground arith in
      ground (arith, bytes_lt_total s t (λ e'. n (ap₂ {C = Bytes} ◌∷◌ e e')))
  | inr different ↦ ground arith
]

bytes-IsOrder : IsOrder bytes_lt
bytes-IsOrder = record { irrefl = bytes_lt_irrefl; trans = bytes_lt_trans; total = bytes_lt_total }

run-relation_example :
    relation
      (run env
        (call_follow (codes "bob") (codes "ann")
          ∷ call_unfollow (codes "ann") (codes "bob")
          ∷ clock_at (pos 9)
          ∷ [])
        tables).1
      (codes "bob")
      (codes "ann")
    ≡ replay
        (run env
          (call_follow (codes "bob") (codes "ann")
            ∷ call_unfollow (codes "ann") (codes "bob")
            ∷ clock_at (pos 9)
            ∷ [])
          tables).0
        (relation tables)
        (codes "bob")
        (codes "ann")
run-relation_example =
    run-relation env
      (call_follow (codes "bob") (codes "ann")
        ∷ call_unfollow (codes "ann") (codes "bob")
        ∷ clock_at (pos 9)
        ∷ [])
      tables committing-IsAtomic (codes "bob") (codes "ann")

-- The user is there: both calls give her.
provision_twice_example :
    provision env
      (codes "ann")
      (codes "other")
      []
      (provision env (codes "ann") (codes " A@x.org") [] tables).1
    ≡ (
      ok (record { user = user (codes "ann") 0 1; created = false; sent = [] }),
      (provision env (codes "ann") (codes " A@x.org") [] tables).1,
    )
unfolding provision ◌=?◌ provision_tx map_err
provision_twice_example =
    provision_twice env (codes "ann") (codes " A@x.org") [] (codes "other") [] tables
      (record { user = user (codes "ann") 0 1; created = false; sent = [] }) committing-IsAtomic
      refl

abbrev new_name : UpdateProfileParams
new_name = record {
  username = some (codes "ann1");
  display_name = none;
  avatar_url = none;
  header_image_url = none;
  bio = some (codes "hello");
  website_url = none;
  location = none;
}

list_walk_complete_example :
    (l : List _) × (walk (page bytes_lt followers (codes "bob") (codes "ann") (pos 1) tables) 2 none
      ≡ some (map item l))
    × Perm l (joined followers (non_empty (codes "ann")) (codes "bob") tables tables.follows)
    × IsSorted bytes_lt bytes-IsOrder l
list_walk_complete_example =
    list_walk_complete bytes_lt followers (codes "bob") (codes "ann") (pos 1) tables 2 bytes-IsOrder
      (refl, tt) (omega arith, tt) (omega arith)

-- eve, who has no username yet, may see nobody; the limit is 30 at most.
list_suggestions-IsNews_example :
    (items : List UserListItem) × (list_suggestions bytes_lt (codes "eve") (pos 500) tables
      ≡ (ok items, tables))
    × (length items ≤ 30)
    × All (IsNews (codes "eve") tables.follows) items
list_suggestions-IsNews_example = list_suggestions-IsNews bytes_lt (codes "eve") (pos 500) tables
