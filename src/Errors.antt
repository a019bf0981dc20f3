-- ===== src/Errors.antt =====
-- Go errors as values: auth/password/errors.go, the driver's errors that the code compares or
-- unwraps, and `fmt.Errorf` with and without a cause.
use text.Mathlib.Text.{◌==◌}
use gotchi.Base.{◌≡◌, refl, ℕ, ℤ, String, Bool, false, Option, none, some}

-- The sentinels of auth/password/errors.go.
pub data Sentinel : Type 0 where
  invalid_credentials account_locked password_policy_violation : Sentinel
  email_already_registered email_not_verified token_invalid user_not_found : Sentinel

-- `PasswordError.Detail`, a constructor for each format string.
pub data Detail : Type 0 where
  no_detail : Detail
  at_least at_most : ℤ → Detail
  detail : String → Detail

pub data Error : Type 0 where
  -- pgx.ErrNoRows
  no_rows : Error
  -- a *pgconn.PgError, by its Code
  pg_error : String → Error
  -- any other error, and `fmt.Errorf` with no `%w`
  plain : String → Error
  -- `fmt.Errorf("…: %w", err)`
  wrap : String → Error → Error
  -- `&PasswordError{Err, Status, Detail}`
  password_error : Sentinel → ℕ → Detail → Error

-- errors.As(err, &pwErr)
unfoldable pub as_password_error : Error → Option (Sentinel × ℕ)
as_password_error no_rows = none
as_password_error (pg_error code) = none
as_password_error (plain text) = none
as_password_error (wrap text e) = as_password_error e
as_password_error (password_error s status d) = some (s, status)

-- errors.As(err, &pgErr) && pgErr.Code == code
unfoldable pub has_code : String → Error → Bool
has_code code no_rows = false
has_code code (pg_error c) = c == code
has_code code (plain s) = false
has_code code (wrap s e) = has_code code e
has_code code (password_error s n d) = false

-- A result `(v, err)`: the value counts only where `err` is nil.
pub data Result {ℓ} (A : Type ℓ) : Type ℓ where
  ok : A → Result A
  err : Error → Result A

infixl 5 ◌>>=◌
abbrev pub ◌>>=◌ {ℓ κ} : {A : Type ℓ} {B : Type κ} → Result A → (A → Result B) → Result B
ok a >>= f = f a
err e >>= f = err e

-- what a successful bind has computed
pub ok_bind {ℓ κ} :
    {A : Type ℓ} {B : Type κ} (r : Result A) (f : A → Result B) (b : B)
    → r >>= f ≡ ok b
    → (a : A) × (r ≡ ok a) × (f a ≡ ok b)
ok_bind (ok a) f b e = (a, refl, e)
ok_bind (err x) f b e = absurd (cc)
