-- ===== src/Database/Connection/Runs.antt =====
-- Taking a run apart: from the result of a sequence to the results of its parts.
use mathlib.Core.Path.{◌∙◌}
use gotchi.Base.{Bool, true, false, none, ◌⊎◌, inl, inr, if◌then◌else◌, ℤ, ◌≡◌, refl, String, arith}
use gotchi.Errors.{Error, plain, pg_error, as_password_error, Result, ok, err}
use gotchi.Database.{Database}
use gotchi.Database.Connection.{
  Connection, M, attempt, or_wrap, get_clock, ◌>>=◌, continue, wrapped, exec, query, begin, finish,
  spend, abort, next_fails,
}

module _ {ℓ κ} {A : Type ℓ} {B : Type κ} where
  continue_returns :
      (r : Result A) (f : A → M B) (c : Connection) (b : B)
      → (continue r f c).0 ≡ ok b
      → (a : A) × (r ≡ ok a) × ((f a c).0 ≡ ok b)
  continue_returns (ok a) f c b h = (a, refl, h)
  continue_returns (err e) f c b h = cc

  -- the parts of a sequence that returns
  pub bind_returns :
      (m : M A) (f : A → M B) (c : Connection) (b : B)
      → ((m >>= f) c).0 ≡ ok b
      → (a : A) × ((m c).0 ≡ ok a) × ((f a (m c).1).0 ≡ ok b)
  unfolding ◌>>=◌
  bind_returns m f c b h = continue_returns (m c).0 f (m c).1 b h

  -- a sequence whose first part returns
  pub bind_step :
      (m : M A) (f : A → M B) (c : Connection) (a : A) → (m c).0 ≡ ok a → (m >>= f) c ≡ f a (m c).1
  unfolding ◌>>=◌
  bind_step m f c a h = rw h

  pub attempt_returns :
      (m : M A) (f : Result A → M B) (c : Connection) (b : B)
      → ((attempt m >>= f) c).0 ≡ ok b
      → (f (m c).0 (m c).1).0 ≡ ok b
  unfolding ◌>>=◌
  attempt_returns m f c b h = h

pub clock_returns {ℓ} :
    {B : Type ℓ} (f : ℤ → M B) (c : Connection) (b : B)
    → ((get_clock >>= f) c).0 ≡ ok b
    → (f c.clock c).0 ≡ ok b
unfolding ◌>>=◌
clock_returns f c b h = h

module _ {ℓ} {A : Type ℓ} where
  wrapped_returns : (text : String) (r : Result A) (a : A) → wrapped text r ≡ ok a → r ≡ ok a
  wrapped_returns text (ok b) a h = h
  wrapped_returns text (err e) a h = cc

  pub or_wrap_returns :
      (text : String) (m : M A) (c : Connection) (a : A)
      → (or_wrap text m c).0 ≡ ok a
      → (m c).0 ≡ ok a
  unfolding or_wrap
  or_wrap_returns text m c a h = wrapped_returns text (m c).0 a h

  -- a statement that reads gives what the tables hold
  pub query_returns :
      (q : Database → Result A) (c : Connection) (a : A) → (query q c).0 ≡ ok a → q c.tables ≡ ok a
  unfolding exec
  query_returns q c a h = ground arith

  pub query_tables : (q : Database → Result A) (c : Connection) → (query q c).1.tables ≡ c.tables
  unfolding exec
  query_tables q c = ground arith

  pub query_clock : (q : Database → Result A) (c : Connection) → (query q c).1.clock ≡ c.clock
  unfolding exec
  query_clock q c = ground arith

  pub or_wrap-query_tables :
      (text : String) (q : Database → Result A) (c : Connection)
      → (or_wrap text (query q) c).1.tables ≡ c.tables
  unfolding or_wrap exec
  or_wrap-query_tables text q c = ground arith

pub or_wrap-begin_tables :
    (text : String) (c : Connection) → (or_wrap text begin c).1.tables ≡ c.tables
unfolding or_wrap begin
or_wrap-begin_tables text c = ground arith

pub or_wrap-begin_clock :
    (text : String) (c : Connection) → (or_wrap text begin c).1.clock ≡ c.clock
unfolding or_wrap begin
or_wrap-begin_clock text c = ground arith

module _ {ℓ} {A : Type ℓ} where
  if_cases :
      (b : Bool) (x y : Result A × Connection)
      → ((if b then x else y) ≡ x) ⊎ ((if b then x else y) ≡ y)
  if_cases true x y = inl refl
  if_cases false x y = inr refl

  -- a statement does not run, or gives what its query gives
  pub exec_cases :
      (q : Database → Result (A × Database)) (c : Connection)
      → ((e : Error) × (c' : Connection) × (as_password_error e ≡ none)
          × (c'.tables ≡ c.tables)
          × (exec q c ≡ (err e, c')))
        ⊎ (exec q c ≡ finish (q c.tables) (spend c))
  unfolding exec as_password_error
  exec_cases q c = elim (if_cases c.aborted (err (pg_error "25P02"), c) _) [
    | inl dead ↦ inl (pg_error "25P02", c, refl, refl, dead)
    | inr live ↦
        elim (if_cases (next_fails c.faults) (err (plain "statement failed"), abort (spend c))
          (finish (q c.tables) (spend c))) [
            | inl fails ↦ inl (plain "statement failed", abort (spend c), refl, refl, live ∙ fails)
            | inr runs ↦ inr (live ∙ runs)
          ]
  ]
