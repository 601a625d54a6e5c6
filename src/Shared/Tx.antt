-- ===== src/Shared/Tx.antt =====
-- Database calls: an action reads and writes the database and may fail. ExecTx is a parameter, with
-- what its callers rely on.
use mathlib.Core.Path.{◌≡◌, refl, ap}
use mathlib.Core.Logic.{◌⊎◌, inl, inr}
use twitter_microservices.Shared.Errors.{Error, Result, ok, err, map_err}

abbrev pub Tx : Type 0 → Type 0 → Type 0
Tx S A = S → Result A × S

module _ {S A : Type 0} where
  abbrev pub pure : A → Tx S A
  pure a s = (ok a, s)

  abbrev pub fail : Error → Tx S A
  fail e s = (err e, s)

  -- `return pgxutil.MapErr(err)` on an error.
  abbrev mapped : Result A × S → Result A × S
  mapped (ok a, s) = (ok a, s)
  mapped (err e, s) = (err (map_err e), s)

  abbrev pub map_tx : Tx S A → Tx S A
  map_tx m s = mapped (m s)

  -- A failure that is logged and passed over.
  abbrev logged : Result A × S → Result (Unit {0}) × S
  logged (r, s) = (ok tt, s)

  abbrev pub or_log : Tx S A → Tx S (Unit {0})
  or_log m s = logged (m s)

module _ {S A B : Type 0} where
  abbrev continue : Result A × S → (A → Tx S B) → Result B × S
  continue (ok a, s) f = f a s
  continue (err e, s) f = (err e, s)

  infixl 5 ◌>>=◌ ◌>>◌
  abbrev pub ◌>>=◌ : Tx S A → (A → Tx S B) → Tx S B
  ◌>>=◌ m f s = continue (m s) f

  abbrev pub ◌>>◌ : Tx S A → Tx S B → Tx S B
  m >> n = m >>= λ _. n

-- ExecTx(ctx, fn) with the value that fn leaves in the captured variables.
abbrev pub ExecTx : Type 0 → Type 1
ExecTx S = (A : Type 0) → Tx S A → Tx S A

-- A transaction that fails leaves the database as it was; one that does not fail either commits what
-- its body did, or fails to commit and leaves the database as it was.
pub record IsAtomic {S : Type 0} (exec_tx : ExecTx S) : Type 1 where
  pub rolls_back :
      (A : Type 0) (body : Tx S A) (s : S) (e : Error)
      → (body s).0 ≡ err e
      → exec_tx A body s ≡ (err e, s)
  pub commits :
      (A : Type 0) (body : Tx S A) (s t : S) (a : A)
      → body s ≡ (ok a, t)
      → (exec_tx A body s ≡ (ok a, t)) ⊎ ((e : Error) × (exec_tx A body s ≡ (err e, s)))

-- What holds before a transaction and after its body, if that succeeds, holds after the transaction.
pub exec_tx_keeps :
    {S : Type 0} {exec_tx : ExecTx S} (P : S → Type 0) (A : Type 0) (body : Tx S A) (s : S)
    → IsAtomic exec_tx
    → P s
    → ((a : A) (t : S) → body s ≡ (ok a, t) → P t)
    → P (exec_tx A body s).1
exec_tx_keeps {S} {exec_tx} P A body s tx before after = by_result (body s) refl
  where
    committed :
        (a : A) (t : S)
        → body s ≡ (ok a, t)
        → (exec_tx A body s ≡ (ok a, t)) ⊎ ((e : Error) × (exec_tx A body s ≡ (err e, s)))
        → P (exec_tx A body s).1
    committed a t e (inl done) = rw done (after a t e)
    committed a t e (inr (x, refused)) = rw refused before

    by_result : (r : Result A × S) → body s ≡ r → P (exec_tx A body s).1
    by_result (ok a, t) e = committed a t e (tx.commits A body s t a e)
    by_result (err x, t) e = rw (tx.rolls_back A body s x (ap (λ (r : Result A × S). r.0) e)) before

-- A call of ExecTx either fails and leaves the database, or commits what its body did.
pub exec_tx-cases :
    {S : Type 0} {exec_tx : ExecTx S} (A : Type 0) (body : Tx S A) (s : S)
    → IsAtomic exec_tx
    → ((e : Error) × (exec_tx A body s ≡ (err e, s)))
      ⊎ ((a : A) × (t : S) × (body s ≡ (ok a, t)) × (exec_tx A body s ≡ (ok a, t)))
exec_tx-cases {S} {exec_tx} A body s tx = by_result (body s) refl
  where
    committed :
        (a : A) (t : S)
        → body s ≡ (ok a, t)
        → (exec_tx A body s ≡ (ok a, t)) ⊎ ((e : Error) × (exec_tx A body s ≡ (err e, s)))
        → ((e : Error) × (exec_tx A body s ≡ (err e, s)))
          ⊎ ((a : A) × (t : S) × (body s ≡ (ok a, t)) × (exec_tx A body s ≡ (ok a, t)))
    committed a t e (inl done) = inr (a, t, e, done)
    committed a t e (inr refused) = inl refused

    by_result :
        (r : Result A × S)
        → body s ≡ r
        → ((e : Error) × (exec_tx A body s ≡ (err e, s)))
          ⊎ ((a : A) × (t : S) × (body s ≡ (ok a, t)) × (exec_tx A body s ≡ (ok a, t)))
    by_result (ok a, t) e = committed a t e (tx.commits A body s t a e)
    by_result (err x, t) e = inl (x, tx.rolls_back A body s x (ap (λ (r : Result A × S). r.0) e))

-- What `pure` makes of the result leaves the database as it is.
pub state_then_pure :
    {S A B : Type 0} (m : Tx S A) (f : A → B) (s : S) → ((m >>= λ a. pure (f a)) s).1 ≡ (m s).1
state_then_pure {S} {A} {B} m f s = by_result (m s)
  where
    by_result : (r : Result A × S) → (continue {S = S} {A = A} {B = B} r (λ a. pure (f a))).1 ≡ r.1
    by_result (ok a, t) = refl
    by_result (err e, t) = refl
