-- ===== src/Users/Follows/Relation.antt =====
-- Follow and Unfollow as the operations of a relation between users, which is what their clients see.
use twitter_microservices.Prelude.{
  ◌≡◌, ◌∙◌, ◌⊎◌, inl, inr, refl, Bool, true, false, not, ◌&&◌, ◌||◌, List, [], ◌∷◌, Bytes, ◌=?◌,
  arith, Bool-cases, Option-cases, bytes_eq_iff, ℤ, pos, negsuc, if◌then◌else◌,
}
use twitter_microservices.Shared.Errors.{Error, app, err_not_found, Result, ok, err, map_err}
use twitter_microservices.Shared.Redis.{Command}
use twitter_microservices.Shared.Tx.{IsAtomic, exec_tx-cases}
use twitter_microservices.Users.Store.{
  Follow, Tables, find_user, has_follow, without_follow, get_user_by_id,
}
use twitter_microservices.Users.Follows.{
  Env, self_follow, incr_counts, follow_event, follow_tx, follow, unfollow_tx, unfollow,
}

-- Who follows whom.
abbrev pub Relation : Type 0
Relation = Bytes → Bytes → Bool

abbrev pub relation : Tables → Relation
relation t a b = has_follow a b t.follows

-- What clients and the clock do to the service.
pub data Call : Type 0 where
  call_follow call_unfollow : Bytes → Bytes → Call
  clock_at : ℤ → Call

abbrev pub is_ok : {A : Type 0} → Result A → Bool
is_ok (ok a) = true
is_ok (err e) = false

-- One call on the tables, and whether it returned no error.
abbrev pub step : Env → Call → Tables → Bool × Tables
step env (call_follow er ee) t = let r = follow env er ee t in (is_ok r.0, r.1)
step env (call_unfollow er ee) t = let r = unfollow env er ee t in (is_ok r.0, r.1)
step env (clock_at now) t = (true, record t { clock = now })

-- The calls one after the other: each with its outcome, and the tables in the end.
unfoldable pub run : Env → List Call → Tables → List (Call × Bool) × Tables
run env [] t = ([], t)
run env (c ∷ cs) t =
    let (done, next) = step env c t in
    let (outcomes, last) = run env cs next in ((c, done) ∷ outcomes, last)

-- The same calls on the relation: one that failed does nothing.
abbrev pub update : Call × Bool → Relation → Relation
update (call_follow er ee, true) r = λ a b. (er =? a && ee =? b) || r a b
update (call_unfollow er ee, true) r = λ a b. not (er =? a && ee =? b) && r a b
update _ r = r

abbrev pub replay : List (Call × Bool) → Relation → Relation
replay [] r = r
replay (c ∷ cs) r = replay cs (update c r)

relation-without :
    (er ee a b : Bytes) (fs : List Follow)
    → has_follow a b (without_follow er ee fs) ≡ (not (er =? a && ee =? b) && has_follow a b fs)
relation-without er ee a b [] = ground arith
relation-without er ee a b (f ∷ fs) = ground (
  arith,
  relation-without er ee a b fs,
  bytes_eq_iff f.follower_id er,
  bytes_eq_iff f.follower_id a,
  bytes_eq_iff f.followee_id ee,
  bytes_eq_iff f.followee_id b,
  bytes_eq_iff er a,
  bytes_eq_iff ee b,
)

module _ (env : Env) where
  open env use {exec_tx, marshal_followed}

  -- The body of the transaction, where it does not fail.
  follow_tx-relation :
      (er ee : Bytes) (t t' : Tables) (applied : Bool) (m : Result Bytes)
      → marshal_followed (follow_event env er ee) ≡ m
      → follow_tx env er ee t ≡ (ok applied, t')
      → (a b : Bytes) → relation t' a b ≡ ((er =? a && ee =? b) || relation t a b)
  unfolding follow_tx
  follow_tx-relation er ee t t' applied m e h a b = elim (Bool-cases (er =? ee)) [
    | inl self ↦ absurd (ground arith)
    | inr other ↦ elim (Bool-cases (has_follow er ee t.follows)) [
      | inl old ↦ ground (arith, bytes_eq_iff er a, bytes_eq_iff ee b)
      | inr new ↦ by_payload m e new
    ]
  ]
    where
      by_payload :
          (m : Result Bytes)
          → marshal_followed (follow_event env er ee) ≡ m
          → has_follow er ee t.follows ≡ false
          → relation t' a b ≡ ((er =? a && ee =? b) || relation t a b)
      by_payload (ok y) q new = ground arith
      by_payload (err x) q new = absurd (ground arith)

  unfollow_tx-relation :
      (er ee : Bytes) (t t' : Tables)
      → unfollow_tx env er ee t ≡ (ok tt, t')
      → (a b : Bytes) → relation t' a b ≡ (not (er =? a && ee =? b) && relation t a b)
  unfolding unfollow_tx
  unfollow_tx-relation er ee t t' h a b = ground (arith, relation-without er ee a b t.follows)

  -- Follow fails and leaves the tables, or adds the pair to the relation.
  follow-cases :
      (er ee : Bytes) (t : Tables)
      → IsAtomic exec_tx
      → ((e : Error) × (follow env er ee t ≡ (err e, t)))
        ⊎ ((sent : List Command) × (t' : Tables) × (follow env er ee t ≡ (ok sent, t'))
            × ((a b : Bytes) → relation t' a b ≡ ((er =? a && ee =? b) || relation t a b)))
  unfolding follow get_user_by_id map_err
  follow-cases er ee t atomic = elim (Bool-cases (er =? ee)) [
    | inl self ↦ inl (app self_follow, rw self)
    | inr other ↦ elim (Option-cases (find_user ee t.users)) [
      | inl missing ↦ inl (app err_not_found, rw (other, get_user_by_id, missing))
      | inr (u, found) ↦ elim (exec_tx-cases Bool (follow_tx env er ee) t atomic) [
        | inl (e, refused) ↦ inl (e, rw (other, get_user_by_id, found, refused))
        | inr (applied, t', body, done) ↦ inr (
          (if applied then incr_counts env.has_redis er ee (pos 1) else []),
          t',
          rw (other, get_user_by_id, found, done),
          follow_tx-relation er ee t t' applied _ refl body,
        )
      ]
    ]
  ]

  unfollow-cases :
      (er ee : Bytes) (t : Tables)
      → IsAtomic exec_tx
      → ((e : Error) × (unfollow env er ee t ≡ (err e, t)))
        ⊎ ((sent : List Command) × (t' : Tables) × (unfollow env er ee t ≡ (ok sent, t'))
            × ((a b : Bytes) → relation t' a b ≡ (not (er =? a && ee =? b) && relation t a b)))
  unfolding unfollow
  unfollow-cases er ee t atomic = elim (exec_tx-cases Unit (unfollow_tx env er ee) t atomic) [
    | inl (e, refused) ↦ inl (e, rw refused)
    | inr (u, t', body, done) ↦ inr (
      incr_counts env.has_redis er ee (negsuc 0),
      t',
      rw done,
      unfollow_tx-relation er ee t t' body,
    )
  ]

  step-relation :
      (c : Call) (t : Tables)
      → IsAtomic exec_tx
      → (a b : Bytes)
      → relation (step env c t).1 a b ≡ update (c, (step env c t).0) (relation t) a b
  step-relation (call_follow er ee) t atomic a b = elim (follow-cases er ee t atomic) [
    | inl (e, failed) ↦ rw failed
    | inr (sent, t', done, added) ↦ rw done (added a b)
  ]
  step-relation (call_unfollow er ee) t atomic a b = elim (unfollow-cases er ee t atomic) [
    | inl (e, failed) ↦ rw failed
    | inr (sent, t', done, removed) ↦ rw done (removed a b)
  ]
  step-relation (clock_at now) t atomic a b = refl

  update-cong :
      (c : Call × Bool) (r s : Relation)
      → ((a b : Bytes) → r a b ≡ s a b)
      → (a b : Bytes) → update c r a b ≡ update c s a b
  update-cong (call_follow er ee, true) r s h a b = rw (h a b)
  update-cong (call_follow er ee, false) r s h a b = h a b
  update-cong (call_unfollow er ee, true) r s h a b = rw (h a b)
  update-cong (call_unfollow er ee, false) r s h a b = h a b
  update-cong (clock_at now, done) r s h a b = h a b

  replay-cong :
      (cs : List (Call × Bool)) (r s : Relation)
      → ((a b : Bytes) → r a b ≡ s a b)
      → (a b : Bytes) → replay cs r a b ≡ replay cs s a b
  replay-cong [] r s h a b = h a b
  replay-cong (c ∷ cs) r s h a b =
      replay-cong cs (update c r) (update c s) (update-cong c r s h) a b

  -- Where the transactions are atomic, after any calls of Follow and Unfollow, the rows of follows
  -- hold exactly the relation that the calls which returned no error make of the one before them.
  pub run-relation :
      (cs : List Call) (t : Tables)
      → IsAtomic exec_tx
      → (a b : Bytes) → relation (run env cs t).1 a b ≡ replay (run env cs t).0 (relation t) a b
  unfolding run
  run-relation [] t atomic a b = refl
  run-relation (c ∷ cs) t atomic a b =
      run-relation cs (step env c t).1 atomic a b
      ∙ replay-cong (run env cs (step env c t).1).0 (relation (step env c t).1)
          (update (c, (step env c t).0) (relation t)) (step-relation c t atomic) a b
