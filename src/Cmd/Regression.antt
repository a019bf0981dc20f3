-- ===== src/Cmd/Regression.antt =====
-- cmd/migration-regression/main.go: migrations up, down and up again in a schema of their own. The
-- server is a parameter; a name is a text in valid UTF-8.
use mathlib.Core.List.{reverse}
use gotchi.Base.{
  ◌==◌, Bool, true, false, not, List, [], ◌∷◌, ◌++◌, Text, codes, is_empty, if◌then◌else◌,
}
use gotchi.Errors.{Result, ok, err, plain}

unfoldable pub quote_rest : Text → Text
quote_rest [] = b'"' ∷ []
quote_rest (r ∷ value) = if r == b'"' then b'"' ∷ b'"' ∷ quote_rest value else r ∷ quote_rest value

unfoldable pub quote_identifier : Text → Text
quote_identifier value = b'"' ∷ quote_rest value

-- What the tool asks of the server, and of the package db: each may fail, and changes the server.
pub record Server (State : Type 0) : Type 0 where
  -- pool.Exec, of a statement; before the first one pgxpool.New opens the pool
  pub exec : Text → State → Result (Unit {0}) × State
  -- manager.Connect, with this search path
  pub connect : Text → State → Result (Unit {0}) × State
  -- manager.RunMigrations, and goose.ResetContext of one source
  pub run_migrations : State → Result (Unit {0}) × State
  pub reset : Text → State → Result (Unit {0}) × State
  pub table_exists : Text → Text → State → Result Bool
  pub function_exists : Text → Text → State → Result Bool

abbrev pub expected_tables : List Text
expected_tables =
    codes "sessions" ∷ codes "tenants" ∷ codes "users" ∷ codes "tenant_memberships" ∷ []

abbrev pub expected_functions : List Text
expected_functions = codes "set_tenant" ∷ []

abbrev source_names : List Text
source_names = codes "core" ∷ codes "auth" ∷ []

abbrev agree : Bool → Bool → Bool
agree true b = b
agree false b = not b

module _ {State : Type 0} (server : Server State) where
  -- a step of main behind one that must have worked
  abbrev pub then_step :
      (State → Result (Unit {0}) × State) → Result (Unit {0}) × State → Result (Unit {0}) × State
  then_step f (ok u, s) = f s
  then_step f (err e, s) = (err e, s)

  abbrev judge : Bool → Result Bool → Result (Unit {0}) → Result (Unit {0})
  judge want (err e) rest = err e
  judge want (ok b) rest = if agree want b then rest else err (plain "unexpected object")

  unfoldable pub check_all : (Text → Result Bool) → Bool → List Text → Result (Unit {0})
  check_all exists want [] = ok tt
  check_all exists want (name ∷ names) = judge want (exists name) (check_all exists want names)

  abbrev both : Result (Unit {0}) → Result (Unit {0}) → Result (Unit {0})
  both (ok u) second = second
  both (err e) second = err e

  -- assertObjectsPresent and assertObjectsAbsent
  unfoldable pub assert_objects : Bool → Text → State → Result (Unit {0}) × State
  assert_objects want schema s = (
    both (check_all (λ t. server.table_exists schema t s) want expected_tables)
        (check_all (λ f. server.function_exists schema f s) want expected_functions),
    s,
  )

  unfoldable pub reset_all : List Text → State → Result (Unit {0}) × State
  reset_all [] s = (ok tt, s)
  reset_all (name ∷ names) s = then_step (reset_all names) (server.reset name s)

  -- from the last source to the first
  unfoldable pub run_down_migrations : List Text → State → Result (Unit {0}) × State
  run_down_migrations sources s = reset_all (reverse sources) s

  unfoldable pub drop_schema : Text → State → State
  drop_schema schema s =
      (server.exec (codes "DROP SCHEMA IF EXISTS " ++ (quote_identifier schema ++ codes " CASCADE"))
        s).1

  -- from the first RunMigrations to the last check
  unfoldable pub up_down_up : Text → State → Result (Unit {0}) × State
  up_down_up schema s = then_step (assert_objects true schema) (
      then_step server.run_migrations (
        then_step (assert_objects false schema) (
          then_step (run_down_migrations source_names)
            (then_step (assert_objects true schema) (server.run_migrations s)))))

  -- log.Fatalf ends the program before the deferred call
  abbrev pub at_exit : Text → Result (Unit {0}) × State → Result (Unit {0}) × State
  at_exit schema (ok u, s) = (ok u, drop_schema schema s)
  at_exit schema (err e, s) = (err e, s)

  unfoldable pub check_schema : Text → State → Result (Unit {0}) × State
  check_schema schema s =
      then_step (λ s1. at_exit schema (up_down_up schema s1))
        (then_step (server.connect (schema ++ codes ",public"))
          (server.exec (codes "CREATE SCHEMA IF NOT EXISTS " ++ quote_identifier schema) s))

  -- main, with the values of its flags; `temporary` is buildTemporarySchemaName
  unfoldable pub run_regression : Text → Text → Text → State → Result (Unit {0}) × State
  run_regression temporary database_url schema s =
      if is_empty database_url
      then (err (plain "database URL is required"), s)
      else check_schema (if is_empty schema then temporary else schema) s
