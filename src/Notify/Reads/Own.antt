-- ===== src/Notify/Reads/Own.antt =====
-- Whose notifications MarkRead reads.
use twitter_microservices.Prelude.{
  ◌≡◌, ◌≢◌, All, ◌∙◌, refl, ◌⊎◌, inl, inr, true, false, List, [], ◌∷◌, map, Bytes, ℤ, arith,
  Bool-cases, bytes_eq_iff,
}
use twitter_microservices.Shared.Errors.{ok, err, app, no_rows, err_not_found, map_err}
use twitter_microservices.Notify.Store.{Notification, Tables}
use twitter_microservices.Notify.Reads.{is_unset, is_row, read_row, returned, mark_read}

-- No notification has that ID and that user.
abbrev pub NoneOwn : (id user_id : Bytes) → List Notification → Type 0
NoneOwn id user_id = All (λ n. n.id ≡ id → n.user_id ≢ user_id)

module _ (now : ℤ) (id user_id : Bytes) where
  -- The rows that the update finds are those that it leaves.
  is_row-read_row :
      (n : Notification) → is_row id user_id (read_row now id user_id n) ≡ is_row id user_id n
  is_row-read_row n = elim (Bool-cases (is_row id user_id n)) [
    | inl here ↦ rw here here
    | inr there ↦ rw there there
  ]

  is_set-read_row :
      (n : Notification)
      → is_row id user_id n ≡ true
      → is_unset (read_row now id user_id n).read_at ≡ false
  is_set-read_row n here = rw here

  abbrev Missing : List Notification → Type 0
  Missing ns =
      NoneOwn id user_id ns
      × (returned id user_id (map (read_row now id user_id) ns) ≡ err no_rows)
      × (map (read_row now id user_id) ns ≡ ns)

  abbrev Found : List Notification → Type 0
  Found ns =
      (n : Notification) × (returned id user_id (map (read_row now id user_id) ns) ≡ ok n)
      × (is_row id user_id n ≡ true)
      × (is_unset n.read_at ≡ false)

  other_row : (n : Notification) → is_row id user_id n ≡ false → n.id ≡ id → n.user_id ≢ user_id
  other_row n there same_id same_user = absurd (
      grind (arith, (bytes_eq_iff n.id id).1 same_id, (bytes_eq_iff n.user_id user_id).1 same_user))

  returned-cases : (ns : List Notification) → Missing ns ⊎ Found ns
  returned-cases [] = inl (tt, refl, refl)
  returned-cases (n ∷ ns) = elim (Bool-cases (is_row id user_id n)) [
    | inl here ↦ inr (
      read_row now id user_id n,
      rw (is_row-read_row n, here),
      is_row-read_row n ∙ here,
      is_set-read_row n here,
    )
    | inr there ↦ elim (returned-cases ns) [
      | inl (none_own, missing, same) ↦
          inl
            ((other_row n there, none_own), rw (is_row-read_row n, there) missing, rw (there, same))
      | inr (m, found, row, set) ↦ inr (m, rw (is_row-read_row n, there) found, row, set)
    ]
  ]

  -- MarkRead answers 404 and changes nothing, which it does only where no notification has that ID
  -- and that user, another user's notification included, or it answers with a notification of that
  -- ID and of that user, which has a time of reading.
  pub mark_read-own :
      (t : Tables)
      → (NoneOwn id user_id t.notifications
          × (mark_read now id user_id t ≡ (err (app err_not_found), t)))
        ⊎ ((n : Notification) × ((mark_read now id user_id t).0 ≡ ok n)
            × (n.id ≡ id)
            × (n.user_id ≡ user_id)
            × (is_unset n.read_at ≡ false))
  unfolding mark_read map_err
  mark_read-own t = elim (returned-cases t.notifications) [
    | inl (none_own, missing, same) ↦ inl (none_own, rw (mark_read, missing, same))
    | inr (n, found, row, set) ↦ inr (
      n,
      rw (mark_read, found),
      (bytes_eq_iff n.id id).0 (ground arith),
      (bytes_eq_iff n.user_id user_id).0 (ground arith),
      set,
    )
  ]
