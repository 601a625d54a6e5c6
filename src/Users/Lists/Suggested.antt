-- ===== src/Users/Lists/Suggested.antt =====
-- What ListSuggestions may suggest.
use twitter_microservices.Prelude.{
  ℕ, zero, suc, ◌≤◌, ◌≡◌, inl, inr, refl, Bool, true, false, some, List, [], ◌∷◌, Bytes, ◌=?◌,
  arith, Bool-cases, Option-cases, All, map, take, length, length-take-le, ℤ,
}
use twitter_microservices.Shared.Errors.{ok}
use twitter_microservices.Users.Limits.{clamp_limit_range}
use twitter_microservices.Users.Store.{User, Follow, Tables, has_follow}
use twitter_microservices.Users.Rows.{
  keep, is_candidate, insert_candidate, yields, ranked, list_user_suggestions,
}
use twitter_microservices.Users.Lists.{UserListItem, suggested, list_suggestions}

-- A user whom the viewer may be shown: another one, who is not followed yet and has a username.
pub record IsNews (viewer : Bytes) (fs : List Follow) (i : UserListItem) : Type 0 where
  pub other : (i.user.id =? viewer) ≡ false
  pub fresh : has_follow viewer i.user.id fs ≡ false
  pub named : (name : Bytes) × (i.user.username ≡ some name)
  pub shown : i.is_following ≡ false

candidate-IsNews :
    (viewer : Bytes) (fs : List Follow) (u : User)
    → is_candidate viewer fs u ≡ true
    → IsNews viewer fs (suggested u)
candidate-IsNews viewer fs u h = record {
  other = ground arith;
  fresh = ground arith;
  named = elim (Option-cases u.username) [ inl unset ↦ absurd (ground arith) | inr named ↦ named ];
  shown = refl;
}

All-keep :
    (viewer : Bytes) (fs : List Follow) (us : List User)
    → All (λ u. IsNews viewer fs (suggested u)) (keep (is_candidate viewer fs) us)
All-keep viewer fs [] = tt
All-keep viewer fs (u ∷ us) = elim (Bool-cases (is_candidate viewer fs u)) [
  | inl chosen ↦ rw chosen (candidate-IsNews viewer fs u chosen, All-keep viewer fs us)
  | inr passed ↦ rw passed (All-keep viewer fs us)
]

module _ (text_lt : Bytes → Bytes → Bool) (viewer : Bytes) (fs : List Follow)
    (P : User → Type 0) where
  All-insert_candidate :
      (u : User) (us : List User) → P u → All P us → All P (insert_candidate text_lt viewer fs u us)
  All-insert_candidate u [] h hs = (h, tt)
  All-insert_candidate u (v ∷ us) h (k, ks) = elim (Bool-cases (yields text_lt viewer fs u v)) [
    | inl later ↦ rw later (k, All-insert_candidate u us h ks)
    | inr first ↦ rw first (h, (k, ks))
  ]

  All-ranked : (us : List User) → All P us → All P (ranked text_lt viewer fs us)
  All-ranked [] hs = tt
  All-ranked (u ∷ us) (h, hs) =
      All-insert_candidate u (ranked text_lt viewer fs us) h (All-ranked us hs)

All-take : (P : User → Type 0) (n : ℕ) (us : List User) → All P us → All P (take n us)
All-take P zero us h = tt
All-take P (suc n) [] h = tt
All-take P (suc n) (u ∷ us) (h, hs) = (h, All-take P n us hs)

All-suggested :
    (P : UserListItem → Type 0) (us : List User)
    → All (λ u. P (suggested u)) us
    → All P (map suggested us)
All-suggested P [] h = tt
All-suggested P (u ∷ us) (h, hs) = (h, All-suggested P us hs)

length-suggested : (us : List User) → length (map suggested us) ≡ length us
length-suggested [] = refl
length-suggested (u ∷ us) = omega (arith, length-suggested us)

-- ListSuggestions answers with at most 30 users, each of them another user than the viewer, with a
-- username, whom the viewer does not follow, whatever the limit that is asked for.
pub list_suggestions-IsNews :
    (text_lt : Bytes → Bytes → Bool) (viewer : Bytes) (limit : ℤ) (t : Tables)
    → (items : List UserListItem) × (list_suggestions text_lt viewer limit t ≡ (ok items, t))
      × (length items ≤ 30)
      × All (IsNews viewer t.follows) items
unfolding list_suggestions list_user_suggestions
list_suggestions-IsNews text_lt viewer limit t =
    let (k, clamped, positive, small) =
      clamp_limit_range limit 10 30 (omega arith) (omega arith) (omega arith) in
    let found = ranked text_lt viewer t.follows (keep (is_candidate viewer t.follows) t.users) in
    (
      map suggested (take k found),
      rw clamped,
      omega (arith, length-suggested (take k found), length-take-le k found),
      All-suggested (IsNews viewer t.follows) (take k found) (
          All-take (λ u. IsNews viewer t.follows (suggested u)) k found
            (All-ranked text_lt viewer t.follows (λ u. IsNews viewer t.follows (suggested u)) _
              (All-keep viewer t.follows t.users))),
    )
