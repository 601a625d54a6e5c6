-- ===== src/Users/Follows/Calls.antt =====
-- Follow and Unfollow against the counts.
use twitter_microservices.Prelude.{
  ◌≡◌, inl, inr, refl, ap, subst, sym, Bool, true, false, [], Bytes, ◌=?◌, if◌then◌else◌, arith,
  Bool-cases, pos, negsuc, Option-cases,
}
use twitter_microservices.Shared.Errors.{Result, ok, err}
use twitter_microservices.Shared.Tx.{IsAtomic, exec_tx_keeps, state_then_pure}
use twitter_microservices.Users.Store.{Tables, find_user, has_follow, get_user_by_id}
use twitter_microservices.Users.Follows.{
  Env, incr_counts, follow_event, follow_tx, follow, unfollow_tx, unfollow,
}
use twitter_microservices.Users.Follows.Counts.{
  IsConsistent, follow-IsConsistent, unfollow-IsConsistent,
}

module _ (env : Env) where
  open env use {exec_tx, marshal_followed}

  -- What the transaction of Follow does where it does not fail.
  follow_tx-IsConsistent :
      (er ee : Bytes) (m : Result Bytes) (t t' : Tables) (applied : Bool)
      → marshal_followed (follow_event env er ee) ≡ m
      → IsConsistent t
      → follow_tx env er ee t ≡ (ok applied, t')
      → IsConsistent t'
  unfolding follow_tx
  follow_tx-IsConsistent er ee m t t' applied e c h = elim (Bool-cases (er =? ee)) [
    | inl self ↦ absurd (ground arith)
    | inr other ↦ elim (Bool-cases (has_follow er ee t.follows)) [
      | inl old ↦ subst IsConsistent (ground arith) c
      | inr new ↦ by_payload m e new
    ]
  ]
    where
      by_payload :
          (m : Result Bytes)
          → marshal_followed (follow_event env er ee) ≡ m
          → has_follow er ee t.follows ≡ false
          → IsConsistent t'
      by_payload (ok b) q new = follow-IsConsistent er ee t t' new c (ground arith) (ground arith)
      by_payload (err x) q new = absurd (ground arith)

  -- Where the transaction is atomic, Follow keeps the two counts of every user equal to the
  -- numbers of rows, and the rows single, on every branch.
  pub follow-keeps_counts :
      (er ee : Bytes) (t : Tables)
      → IsAtomic exec_tx
      → IsConsistent t
      → IsConsistent (follow env er ee t).1
  unfolding follow get_user_by_id
  follow-keeps_counts er ee t atomic c = elim (Bool-cases (er =? ee)) [
    | inl self ↦ rw self c
    | inr other ↦ elim (Option-cases (find_user ee t.users)) [
      | inl missing ↦ rw (other, get_user_by_id, missing) c
      | inr (u, found) ↦
          rw (other, get_user_by_id, found)
            (subst IsConsistent
              (sym (
                state_then_pure (exec_tx Bool (follow_tx env er ee))
                  (λ applied. if applied then incr_counts env.has_redis er ee (pos 1) else []) t))
              (exec_tx_keeps IsConsistent Bool (follow_tx env er ee) t atomic c (λ applied t' h.
                follow_tx-IsConsistent er ee (marshal_followed (follow_event env er ee)) t t'
                  applied refl c h)))
    ]
  ]

  -- Where the transaction is atomic, an Unfollow of a follow that exists keeps the counts and the
  -- rows in step.
  pub unfollow-keeps_counts :
      (er ee : Bytes) (t : Tables)
      → IsAtomic exec_tx
      → has_follow er ee t.follows ≡ true
      → IsConsistent t
      → IsConsistent (unfollow env er ee t).1
  unfolding unfollow unfollow_tx
  unfollow-keeps_counts er ee t atomic old c =
      subst IsConsistent
        (sym (
          state_then_pure (exec_tx Unit (unfollow_tx env er ee))
            (λ done. incr_counts env.has_redis er ee (negsuc 0)) t))
        (exec_tx_keeps IsConsistent Unit (unfollow_tx env er ee) t atomic c (λ done t' h.
          unfollow-IsConsistent er ee t t' old c
            (sym (ap (λ (r : Result (Unit {0}) × Tables). r.1.users) h))
            (sym (ap (λ (r : Result (Unit {0}) × Tables). r.1.follows) h))))
