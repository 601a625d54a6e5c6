-- ===== src/Users/Profiles/Calls.antt =====
-- Provision on every branch, and twice.
use twitter_microservices.Prelude.{
  ◌≡◌, ◌∙◌, ◌⊎◌, inl, inr, refl, ap, subst, sym, true, false, ◌||◌, none, some, List, [], ◌∷◌, ◌++◌,
  Bytes, ◌=?◌, arith, Bool-cases, Option-cases, bytes_eq_iff,
}
use twitter_microservices.Shared.Errors.{
  Error, no_rows, app, err_conflict, Result, ok, err, map_err, is_conflict, is_unique_violation,
  non_empty,
}
use twitter_microservices.Shared.Tx.{IsAtomic, exec_tx-cases}
use twitter_microservices.Users.Store.{User, Tables, find_user, get_user_by_id, insert_outbox}
use twitter_microservices.Users.Queries.{has_id, has_email, new_user, provision_user}
use twitter_microservices.Users.Follows.{Env}
use twitter_microservices.Users.Profiles.{
  Provisioned, normalised, created_event, provision_tx, seed_counts, existing_user,
  after_provision_tx, provision,
}

find_user-has_id : (id : Bytes) (us : List User) → find_user id us ≡ none → has_id id us ≡ false
find_user-has_id id [] h = refl
find_user-has_id id (u ∷ us) h = ground (arith, find_user-has_id id us)

has_id_of_find :
    (id : Bytes) (us : List User) (u : User) → find_user id us ≡ some u → has_id id us ≡ true
has_id_of_find id [] u h = ground arith
has_id_of_find id (x ∷ us) u h = ground (arith, has_id_of_find id us u)

-- The user that a row added at the end makes findable.
find_user_last :
    (id : Bytes) (us : List User) (u : User)
    → u.id ≡ id
    → find_user id us ≡ none
    → find_user id (us ++ u ∷ []) ≡ some u
find_user_last id [] u e h = ground (arith, bytes_eq_iff u.id id)
find_user_last id (x ∷ us) u e h = ground (arith, find_user_last id us u e)

-- The keys of the table users.
abbrev pub IsUnique : List User → Type 0
IsUnique [] = Unit
IsUnique (u ∷ us) = (has_id u.id us ≡ false) × (has_email u.email us ≡ false) × IsUnique us

has_id_last :
    (id : Bytes) (us : List User) (u : User)
    → has_id id us ≡ false
    → (u.id =? id) ≡ false
    → has_id id (us ++ u ∷ []) ≡ false
has_id_last id [] u h n = ground arith
has_id_last id (x ∷ us) u h n = ground (arith, has_id_last id us u)

has_email_last :
    (email : Bytes) (us : List User) (u : User)
    → has_email email us ≡ false
    → (u.email =? email) ≡ false
    → has_email email (us ++ u ∷ []) ≡ false
has_email_last email [] u h n = ground arith
has_email_last email (x ∷ us) u h n = ground (arith, has_email_last email us u)

IsUnique-last :
    (us : List User) (u : User)
    → IsUnique us
    → has_id u.id us ≡ false
    → has_email u.email us ≡ false
    → IsUnique (us ++ u ∷ [])
IsUnique-last [] u h no_id no_email = (refl, refl, tt)
IsUnique-last (x ∷ us) u (h, k, hs) no_id no_email = (
  has_id_last x.id us u h (ground (arith, bytes_eq_iff u.id x.id, bytes_eq_iff x.id u.id)),
  has_email_last x.email us u k
      (ground (arith, bytes_eq_iff u.email x.email, bytes_eq_iff x.email u.email)),
  IsUnique-last us u hs (ground arith) (ground arith),
)

found_by_id :
    (id : Bytes) (t : Tables) (u : User)
    → find_user id t.users ≡ some u
    → get_user_by_id id t ≡ (ok u, t)
unfolding get_user_by_id
found_by_id id t u h = rw (get_user_by_id, h)

missing_by_id :
    (id : Bytes) (t : Tables) → find_user id t.users ≡ none → get_user_by_id id t ≡ (err no_rows, t)
unfolding get_user_by_id
missing_by_id id t h = rw (get_user_by_id, h)

module _ (env : Env) where
  open env use {exec_tx, marshal_created, marshal_updated, lower_unicode}

  -- A row with the same sub or the same email makes the transaction fail with ErrConflict.
  provision_tx_conflict :
      (sub email name : Bytes) (t : Tables)
      → (has_id sub t.users || has_email email t.users) ≡ true
      → (provision_tx env sub email name t).0 ≡ err (app err_conflict)
  unfolding provision_tx provision_user map_err is_unique_violation ◌=?◌
  provision_tx_conflict sub email name t h = rw h

  after_conflict :
      (sub email name : Bytes) (t : Tables)
      → IsAtomic exec_tx
      → (has_id sub t.users || has_email (normalised lower_unicode email) t.users) ≡ true
      → provision env sub email name t ≡ existing_user env (get_user_by_id sub t)
  unfolding provision is_conflict ◌=?◌
  after_conflict sub email name t atomic h =
      let refused =
        atomic.rolls_back User (provision_tx env sub (normalised lower_unicode email) name) t
          (app err_conflict)
          (provision_tx_conflict sub (normalised lower_unicode email) name t h) in
      rw refused

  -- The user is there already, with the same sub.
  pub provision_existing :
      (sub email name : Bytes) (t : Tables) (u : User)
      → IsAtomic exec_tx
      → find_user sub t.users ≡ some u
      → provision env sub email name t ≡ (ok (record { user = u; created = false; sent = [] }), t)
  provision_existing sub email name t u atomic found =
      after_conflict sub email name t atomic (rw (has_id_of_find sub t.users u found))
      ∙ rw (found_by_id sub t u found, existing_user)

  -- The email belongs to another sub.
  pub provision_email_taken :
      (sub email name : Bytes) (t : Tables)
      → IsAtomic exec_tx
      → find_user sub t.users ≡ none
      → has_email (normalised lower_unicode email) t.users ≡ true
      → provision env sub email name t ≡ (err (app err_conflict), t)
  provision_email_taken sub email name t atomic missing taken =
      after_conflict sub email name t atomic (ground (arith))
      ∙ rw (missing_by_id sub t missing, existing_user)

  -- What the transaction leaves, where it does not fail.
  provision_tx-new :
      (sub email name : Bytes) (t t' : Tables) (u : User) (m : Result Bytes)
      → marshal_created (created_event env (new_user sub email (non_empty name) t)) ≡ m
      → has_id sub t.users ≡ false
      → has_email email t.users ≡ false
      → provision_tx env sub email name t ≡ (ok u, t')
      → (u ≡ new_user sub email (non_empty name) t)
        × (t'.users ≡ t.users ++ u ∷ [])
        × (t'.follows ≡ t.follows)
  unfolding provision_tx provision_user insert_outbox
  provision_tx-new sub email name t t' u (ok b) e no_id no_email h =
      (ground arith, ground arith, ground arith)
  provision_tx-new sub email name t t' u (err x) e no_id no_email h = absurd (ground arith)

  provision_failed :
      (sub email name : Bytes) (t : Tables) (e : Error)
      → find_user sub t.users ≡ none
      → exec_tx User (provision_tx env sub (normalised lower_unicode email) name) t ≡ (err e, t)
      → (x : Error) × (provision env sub email name t ≡ (err x, t))
  unfolding provision
  provision_failed sub email name t e missing refused = elim (Bool-cases (is_conflict e)) [
    | inl conflict ↦ (
      app err_conflict,
      rw (refused, after_provision_tx, conflict, missing_by_id sub t missing, existing_user),
    )
    | inr passed ↦ (e, rw (refused, after_provision_tx, passed))
  ]

  -- What the row of a new user is, and what Provision leaves of the tables.
  abbrev pub IsNew : (sub email name : Bytes) → Tables → User → Tables → Type 0
  IsNew sub email name t u t' =
      (u ≡ new_user sub email (non_empty name) t)
      × (t'.users ≡ t.users ++ u ∷ [])
      × (t'.follows ≡ t.follows)

  -- The user is new: the row is added, or nothing changes.
  pub provision-IsNew :
      (sub email name : Bytes) (t : Tables)
      → IsAtomic exec_tx
      → find_user sub t.users ≡ none
      → has_email (normalised lower_unicode email) t.users ≡ false
      → ((x : Error) × (provision env sub email name t ≡ (err x, t)))
        ⊎ ((u : User) × (t' : Tables) × (provision env sub email name t
              ≡ (ok (seed_counts env u), t'))
            × IsNew sub (normalised lower_unicode email) name t u t')
  unfolding provision
  provision-IsNew sub email name t atomic missing free =
      elim (exec_tx-cases User (provision_tx env sub (normalised lower_unicode email) name) t
        atomic) [
          | inl (x, refused) ↦ inl (provision_failed sub email name t x missing refused)
          | inr (u, t', body, done) ↦ inr (
            u,
            t',
            rw done,
            provision_tx-new sub (normalised lower_unicode email) name t t' u _ refl
                (find_user-has_id sub t.users missing) free body,
          )
        ]

  -- A call of Provision fails and changes nothing, or gives the user that is there, or adds one.
  pub provision-cases :
      (sub email name : Bytes) (t : Tables)
      → IsAtomic exec_tx
      → ((x : Error) × (provision env sub email name t ≡ (err x, t)))
        ⊎ (((u : User) × (find_user sub t.users ≡ some u)
              × (provision env sub email name t
                  ≡ (ok (record { user = u; created = false; sent = [] }), t)))
            ⊎ ((u : User) × (t' : Tables) × (provision env sub email name t
                  ≡ (ok (seed_counts env u), t'))
                × (find_user sub t.users ≡ none)
                × (has_email (normalised lower_unicode email) t.users ≡ false)
                × IsNew sub (normalised lower_unicode email) name t u t'))
  provision-cases sub email name t atomic = elim (Option-cases (find_user sub t.users)) [
    | inr (u, found) ↦ inr (inl (u, found, provision_existing sub email name t u atomic found))
    | inl missing ↦ elim (Bool-cases (has_email (normalised lower_unicode email) t.users)) [
      | inl taken ↦
          inl (app err_conflict, provision_email_taken sub email name t atomic missing taken)
      | inr free ↦ elim (provision-IsNew sub email name t atomic missing free) [
        | inl failed ↦ inl failed
        | inr (u, t', done, added) ↦ inr (inr (u, t', done, missing, free, added))
      ]
    ]
  ]

  -- Where the transactions are atomic, a Provision that follows one which succeeded, with the same
  -- sub and whatever email and name, gives the same user, creates and sends nothing, and leaves the
  -- tables as they are.
  pub provision_twice :
      (sub email name email' name' : Bytes) (t : Tables) (p : Provisioned)
      → IsAtomic exec_tx
      → (provision env sub email name t).0 ≡ ok p
      → let t' = (provision env sub email name t).1 in
        provision env sub email' name' t'
        ≡ (ok (record { user = p.user; created = false; sent = [] }), t')
  provision_twice sub email name email' name' t p atomic h =
      provision_existing sub email' name' (provision env sub email name t).1 p.user atomic
        (elim (provision-cases sub email name t atomic) [
          | inl (x, failed) ↦ absurd (ground (arith, rw failed at h))
          | inr (inl (u, found, done)) ↦ rw done (found ∙ ap some (ground (arith, rw done at h)))
          | inr (inr (u, t', done, missing, free, (e, us, fs))) ↦ rw done (
              subst (λ l. find_user sub l ≡ some u) (sym us)
                (find_user_last sub t.users u (rw e) missing)
              ∙ ap some (ground (arith, rw done at h)))
        ])

  -- Provision keeps the IDs and the emails of the users unique, where the transactions are atomic.
  pub provision-IsUnique :
      (sub email name : Bytes) (t : Tables)
      → IsAtomic exec_tx
      → IsUnique t.users
      → IsUnique (provision env sub email name t).1.users
  provision-IsUnique sub email name t atomic h = elim (provision-cases sub email name t atomic) [
    | inl (x, failed) ↦ rw failed h
    | inr (inl (u, found, done)) ↦ rw done h
    | inr (inr (u, t', done, missing, free, (e, us, fs))) ↦ rw done (
        rw us (IsUnique-last t.users u h (rw e (find_user-has_id sub t.users missing)) (rw e free)))
  ]
