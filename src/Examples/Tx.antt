-- ===== src/Examples/Tx.antt =====
-- A database that always commits, and one that never does.
use twitter_microservices.Prelude.{◌≡◌, inl, inr, ap}
use twitter_microservices.Shared.Errors.{Error, other, Result, ok, err}
use twitter_microservices.Shared.Tx.{ExecTx, IsAtomic}

module _ {S : Type 0} where
  abbrev rolled_back : {A : Type 0} → S → Result A × S → Result A × S
  rolled_back s (ok a, t) = (ok a, t)
  rolled_back s (err e, t) = (err e, s)

  abbrev pub committing : ExecTx S
  committing A body s = rolled_back s (body s)

  abbrev unsaved : {A : Type 0} → S → Result A × S → Result A × S
  unsaved s (ok a, t) = (err (other 9), s)
  unsaved s (err e, t) = (err e, s)

  abbrev pub refusing : ExecTx S
  refusing A body s = unsaved s (body s)

  rolled_back_err :
      {A : Type 0} (r : Result A × S) (s : S) (e : Error)
      → r.0 ≡ err e
      → rolled_back s r ≡ (err e, s)
  rolled_back_err (ok a, t) s e h = absurd cc
  rolled_back_err (err x, t) s e h = cc

  unsaved_err :
      {A : Type 0} (r : Result A × S) (s : S) (e : Error) → r.0 ≡ err e → unsaved s r ≡ (err e, s)
  unsaved_err (ok a, t) s e h = absurd cc
  unsaved_err (err x, t) s e h = cc

  pub committing-IsAtomic : IsAtomic committing
  committing-IsAtomic = record {
    rolls_back = λ A body s e h. rolled_back_err (body s) s e h;
    commits = λ A body s t a h. inl (ap (rolled_back s) h);
  }

  pub refusing-IsAtomic : IsAtomic refusing
  refusing-IsAtomic = record {
    rolls_back = λ A body s e h. unsaved_err (body s) s e h;
    commits = λ A body s t a h. inr (other 9, ap (unsaved s) h);
  }
