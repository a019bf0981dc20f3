-- ===== src/Database/Connection.antt =====
-- What stands between the code and the tables: statements on the pool or in a transaction
-- (internal/db/db.go, pgxpool.Pool.Begin, pgx.Tx). A list of faults says which statement fails for
-- a reason of its own (network, timeout, a value that is too long); past its end none does.
-- As in PostgreSQL, an error inside a transaction aborts it: each later statement fails with
-- SQLSTATE 25P02 and the commit rolls back. A statement that returns no row is no error.
pub mod Keeps
pub mod Calm
pub mod Runs
pub mod Fails
pub mod Atomic
use gotchi.Base.{
  ℕ, ◌+◌, ℤ, Bool, true, false, Option, none, some, List, [], ◌∷◌, String, Text, if◌then◌else◌,
}
use gotchi.Errors.{Error, Result, ok, err, no_rows, pg_error, plain, wrap, password_error}
use gotchi.Database.{Database}

-- A mail that an EmailSender was asked to send: to whom, and with which token.
pub data Mail : Type 0 where
  reset_mail verification_mail : Text → Text → Mail
  changed_mail : Text → Mail

pub record Connection : Type 0 where
  pub tables : Database
  -- the tables at Begin, inside a transaction
  pub snapshot : Option Database
  pub aborted : Bool
  pub faults : List Bool
  -- NOW() and time.Now(), read once for each operation
  pub clock : ℤ
  -- how many Argon2id computations have been made
  pub hashings : ℕ
  -- the mails that were sent, latest first; no rollback takes one back
  pub mails : List Mail

-- A part of a Go function that can return early with an error.
abbrev pub M {ℓ} : Type ℓ → Type ℓ
M A = Connection → Result A × Connection

module _ {ℓ} {A : Type ℓ} where
  unfoldable pub pure : A → M A
  pure a c = (ok a, c)

  unfoldable pub raise : Error → M A
  raise e c = (err e, c)

  unfoldable pub lift : Result A → M A
  lift r c = (r, c)

  -- `v, err := m`, with the error at hand
  unfoldable pub attempt : M A → M (Result A)
  attempt m c = let (r, c') = m c in (ok r, c')

  abbrev pub wrapped : String → Result A → Result A
  wrapped text (ok a) = ok a
  wrapped text (err e) = err (wrap text e)

  -- `if err != nil { return fmt.Errorf("text: %w", err) }`
  unfoldable pub or_wrap : String → M A → M A
  or_wrap text m c = let (r, c') = m c in (wrapped text r, c')

unfoldable pub get_clock : M ℤ
get_clock c = (ok c.clock, c)

unfoldable pub count_hashing : M (Unit {0})
count_hashing c = (ok tt, record c { hashings = c.hashings + 1 })

-- one call of an EmailSender, and what it returned
unfoldable pub post : Mail → Result (Unit {0}) → M (Unit {0})
post mail r c = (r, record c { mails = mail ∷ c.mails })

module _ {ℓ κ} {A : Type ℓ} {B : Type κ} where
  abbrev pub continue : Result A → (A → M B) → M B
  continue (ok a) f c = f a c
  continue (err e) f c = (err e, c)

  infixl 5 ◌>>=◌ ◌>>◌
  -- opening this opens the other ways to build a part too
  unfoldable pub ◌>>=◌ : M A → (A → M B) → M B
  unfolding pure raise lift attempt or_wrap get_clock count_hashing post
  ◌>>=◌ m f c = let (r, c') = m c in continue r f c'

  abbrev pub ◌>>◌ : M A → M B → M B
  m >> n = m >>= λ _. n

abbrev pub next_fails : List Bool → Bool
next_fails [] = false
next_fails (b ∷ _) = b

abbrev pub later : List Bool → List Bool
later [] = []
later (_ ∷ bs) = bs

abbrev pub in_transaction : Option Database → Bool
in_transaction none = false
in_transaction (some _) = true

abbrev pub spend : Connection → Connection
spend c = record c { faults = later c.faults }

abbrev pub abort : Connection → Connection
abort c = record c { aborted = in_transaction c.snapshot }

abbrev pub fail_with : Error → Connection → Connection
fail_with no_rows c = c
fail_with (pg_error code) c = abort c
fail_with (plain s) c = abort c
fail_with (wrap s e) c = abort c
fail_with (password_error s n d) c = abort c

module _ {ℓ} {A : Type ℓ} where
  abbrev pub finish : Result (A × Database) → Connection → Result A × Connection
  finish (ok (a, d)) c = (ok a, record c { tables = d })
  finish (err e) c = (err e, fail_with e c)

  -- one statement that may write
  unfoldable pub exec : (Database → Result (A × Database)) → M A
  exec q c =
      if c.aborted
      then (err (pg_error "25P02"), c)
      else if next_fails c.faults
      then (err (plain "statement failed"), abort (spend c))
      else finish (q c.tables) (spend c)

  abbrev pub unchanged : Database → Result A → Result (A × Database)
  unchanged d (ok a) = ok (a, d)
  unchanged d (err e) = err e

  -- one statement that only reads
  abbrev pub query : (Database → Result A) → M A
  query q = exec (λ d. unchanged d (q d))

-- pool.Begin
unfoldable pub begin : M (Unit {0})
begin c =
    if next_fails c.faults
    then (err (plain "begin failed"), spend c)
    else (ok tt, record c { snapshot = some c.tables; aborted = false; faults = later c.faults })

-- tx.Rollback; after the transaction has ended it does nothing
unfoldable pub rollback : Connection → Connection
rollback c = elim c.snapshot [
  | none ↦ c
  | some d ↦ record c { tables = d; snapshot = none; aborted = false }
]

-- tx.Commit; a commit that fails has rolled back
unfoldable pub commit : M (Unit {0})
unfolding rollback
commit c = elim c.snapshot [
  | none ↦ (err (plain "tx is closed"), c)
  | some d ↦
      if c.aborted
      then (err (plain "commit unexpectedly resulted in rollback"), rollback c)
      else if next_fails c.faults
      then (err (plain "commit failed"), rollback (spend c))
      else (ok tt, record c { snapshot = none; faults = later c.faults })
]

abbrev pub undo {ℓ} : {A : Type ℓ} → Result A × Connection → Result A × Connection
undo r = (r.0, rollback r.1)

-- `defer tx.Rollback(ctx)` around the rest of the function
unfoldable pub deferring_rollback {ℓ} : {A : Type ℓ} → M A → M A
deferring_rollback m c = undo (m c)
