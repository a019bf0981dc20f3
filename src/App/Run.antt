-- ===== src/App/Run.antt =====
-- Run of app/app.go: the order in which an application starts. `Parts` are the outcomes of the calls
-- that Run makes besides those of the database.
use gotchi.Base.{Bool, true, false, Option, none, some, List, [], ◌∷◌, String, if◌then◌else◌}
use gotchi.Errors.{Error, plain, wrap, Result, ok, err}
use gotchi.Web.Context.{Context}
use gotchi.Db.Migrations.{Fs, MigrationSource}
use gotchi.Db.Manager.{
  Driver, Manager, connect, add_migration_source, enable_otel_tracing, run_migrations, close,
}
use gotchi.App.Builder.{OtelConfig, tracing_enabled, Builder}
use gotchi.App.Middleware.{resolve_otel, migration_sources}
use gotchi.App.Ready.{is_set}

-- what ListenAndServe returns: nil, http.ErrServerClosed or another error
pub data Listened : Type 0 where
  fine closed : Listened
  failed : Error → Listened

-- how the server ends: by itself, or by the cancelled context, with what Shutdown returns
pub data Ending : Type 0 where
  by_itself : Listened → Ending
  cancelled : Option Error → Listened → Ending

abbrev pub unless_closed : Listened → Option Error
unless_closed fine = none
unless_closed closed = none
unless_closed (failed e) = some e

unfoldable pub run_http_server : Ending → Option Error
run_http_server (by_itself l) = unless_closed l
run_http_server (cancelled none l) = unless_closed l
run_http_server (cancelled (some e) l) = some e

pub record Parts (Service : Type 0) : Type 0 where
  -- SetupOTEL, and the file systems of package migrations
  pub setup_otel : OtelConfig → Option Error
  pub core : Fs
  pub auth : Fs
  pub password : Fs
  -- NewPostgresIdentityStore, NewOIDCHandler and NewPasswordIdentityStore
  pub new_identity_store : Result Service
  pub is_postgres : Service → Bool
  pub new_oidc_handler : Service → Option Error
  pub new_password_store : Service → Option Error
  -- Register of a module
  pub register : Service → Option Error
  pub ending : Ending

abbrev pub after_none : Option Error → Option Error → Option Error
after_none none next = next
after_none (some e) next = some e

abbrev pub wrapping : String → Option Error → Option Error
wrapping text none = none
wrapping text (some e) = some (wrap text e)

abbrev pub with_store {ℓ} : {A : Type ℓ} → Result A → (A → Option Error) → Option Error
with_store (ok s) f = f s
with_store (err e) f = some (wrap "failed to create identity store" e)

module _ {Service : Type 0} where
  -- the identity store that is there, or a new one
  abbrev pub store_or_new : Parts Service → Option Service → Result Service
  store_or_new p none = p.new_identity_store
  store_or_new p (some s) = ok s

  abbrev pub password_part : Parts Service → Service → Option Error
  password_part p s =
      if p.is_postgres s
      then wrapping "failed to create password identity store" (p.new_password_store s)
      else some (plain "password auth requires a PostgresIdentityStore")

  -- the identity store and the handlers of both logins
  unfoldable pub build_logins : Parts Service → Builder Service → Option Error
  build_logins p b =
      if is_set b.auth_config
      then with_store (store_or_new p b.identity_store) (λ s.
        after_none (p.new_oidc_handler s)
          (if is_set b.password_config then password_part p s else none))
      else (if is_set b.password_config
          then with_store (store_or_new p b.identity_store) (password_part p)
          else none)

  unfoldable pub register_all : Parts Service → List Service → Option Error
  register_all p [] = none
  register_all p (m ∷ modules) = after_none (p.register m) (register_all p modules)

  module _ (d : Driver) (p : Parts Service) (b : Builder Service) (ctx : Context) where
    -- where Run is when it returns: the error, the database, whether the function that shuts OTEL
    -- down is kept, and whether the server was started
    pub record Ran : Type 0 where
      pub error : Option Error
      pub db : Manager d
      pub otel_shutdown : Bool
      pub served : Bool

    abbrev pub failed_with : Error → Manager d → Bool → Ran
    failed_with e m otel = record { error = some e; db = m; otel_shutdown = otel; served = false }

    -- from the handlers on
    unfoldable pub serve_or : Option Error → Manager d → Bool → Ran
    unfolding run_http_server
    serve_or (some e) m otel = failed_with e m otel
    serve_or none m otel = record {
      error = run_http_server p.ending;
      db = m;
      otel_shutdown = otel;
      served = true;
    }

    unfoldable pub migrated : Option Error → Manager d → Bool → Ran
    unfolding serve_or build_logins register_all
    migrated (some e) m otel = failed_with e m otel
    migrated none m otel =
        serve_or (after_none (build_logins p b) (register_all p b.modules)) m otel

    unfoldable pub add_all : Manager d → List MigrationSource → Manager d
    unfolding add_migration_source
    add_all m [] = m
    add_all m (s ∷ sources) = add_all (add_migration_source d m s) sources

    unfoldable pub connected_to : Option Error × Manager d → Bool → Ran
    unfolding migrated add_all run_migrations migration_sources
    connected_to (some e, m) otel = failed_with e m otel
    connected_to (none, m) otel =
        let ready = add_all m (migration_sources p.core p.auth p.password b) in
        migrated (run_migrations d ready ctx) ready otel

    unfoldable pub traced : Option Error → OtelConfig → Manager d → Ran
    unfolding connected_to connect enable_otel_tracing tracing_enabled
    traced (some e) c m = failed_with (wrap "setting up OTEL" e) m false
    traced none c m =
        connected_to (connect d (if tracing_enabled c then enable_otel_tracing d m else m) ctx) true

    unfoldable pub started : Option OtelConfig → Manager d → Ran
    unfolding traced connected_to connect resolve_otel
    started none m = connected_to (connect d m ctx) false
    started (some c) m = traced (p.setup_otel (resolve_otel c)) (resolve_otel c) m

    unfoldable pub run : Manager d → Ran
    unfolding started
    run m = started b.otel_config m

    -- Close, given what the function that shuts OTEL down returns; and the pool that is closed
    unfoldable pub close_application : Option Error → Ran → Option Error × Option d.Pool
    unfolding close
    close_application e r = (if r.otel_shutdown then e else none, (close d r.db).1)
