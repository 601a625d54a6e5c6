-- ===== src/Shared/Errors.antt =====
-- apps/shared/httperr/httperr.go, apps/shared/pgxutil/pgxutil.go and apps/shared/ptr/ptr.go: the
-- errors that a service returns, and what a database error becomes.
use twitter_microservices.Prelude.{
  ℕ, Bool, false, Option, none, some, [], ◌∷◌, Bytes, codes, ◌=?◌, if◌then◌else◌, ◌≡◌, refl,
}

-- httperr.AppError
pub record AppError : Type 0 where
  pub status : ℕ
  pub code : Bytes
  pub message : Bytes

-- A Go `error`, by what the code asks of it: `errors.As` to an *AppError, `errors.Is` to
-- pgx.ErrNoRows, `errors.As` to a *pgconn.PgError with its code, `errors.Is` to the consumers'
-- errUnmarshal. Any other error is a number.
pub data Error : Type 0 where
  app : AppError → Error
  no_rows : Error
  pg : Bytes → Error
  unmarshal : Error
  other : ℕ → Error

-- A pair `(value, err)` of which the caller reads the value only if `err` is nil.
pub data Result {ℓ} (A : Type ℓ) : Type ℓ where
  ok : A → Result A
  err : Error → Result A

infixl 5 ◌>>=◌ ◌>>◌
abbrev pub ◌>>=◌ {ℓ κ} : {A : Type ℓ} {B : Type κ} → Result A → (A → Result B) → Result B
ok a >>= f = f a
err e >>= f = err e

abbrev pub ◌>>◌ {ℓ κ} : {A : Type ℓ} {B : Type κ} → Result A → Result B → Result B
m >> k = m >>= λ _. k

abbrev pub err_not_found : AppError
err_not_found = record { status = 404; code = codes "NOT_FOUND"; message = codes "not found" }

abbrev pub err_forbidden : AppError
err_forbidden = record { status = 403; code = codes "FORBIDDEN"; message = codes "forbidden" }

abbrev pub err_conflict : AppError
err_conflict = record { status = 409; code = codes "CONFLICT"; message = codes "conflict" }

abbrev pub err_unauthorized : AppError
err_unauthorized = record {
  status = 401;
  code = codes "UNAUTHORIZED";
  message = codes "unauthorized";
}

-- httperr.Handle: the status and the code that the client gets.
unfoldable pub handle : Error → ℕ × Bytes
handle (app e) = (e.status, e.code)
handle _ = (500, codes "INTERNAL_ERROR")

-- pgxutil.IsUniqueViolation
unfoldable pub is_unique_violation : Error → Bool
is_unique_violation (pg code) = code =? codes "23505"
is_unique_violation _ = false

-- pgxutil.MapErr at an error; at nil it is nil.
unfoldable pub map_err : Error → Error
unfolding is_unique_violation
map_err no_rows = app err_not_found
map_err e = if is_unique_violation e then app err_conflict else e

-- errors.Is(err, httperr.ErrConflict), which is the only error with that code.
unfoldable pub is_conflict : Error → Bool
is_conflict (app e) = e.code =? codes "CONFLICT"
is_conflict _ = false

-- MapErr on a result.
abbrev pub map_result {ℓ} : {A : Type ℓ} → Result A → Result A
map_result (ok a) = ok a
map_result (err e) = err (map_err e)

-- ptr.Deref at a *string
unfoldable pub deref : Option Bytes → Bytes
deref none = []
deref (some s) = s

-- ptr.NonEmpty
unfoldable pub non_empty : Bytes → Option Bytes
non_empty [] = none
non_empty (c ∷ s) = some (c ∷ s)

-- Dereferencing what NonEmpty made of a text gives the text.
pub deref-non_empty : (s : Bytes) → deref (non_empty s) ≡ s
unfolding deref non_empty
deref-non_empty [] = refl
deref-non_empty (c ∷ s) = refl
