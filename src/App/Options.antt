-- ===== src/App/Options.antt =====
-- The options of app/option.go, and New of app/app.go.
use gotchi.Base.{ℤ, pos, leb_ℤ, true, false, some, List, [], ◌∷◌, ◌++◌, Text, if◌then◌else◌}
use gotchi.Errors.{plain, Result, ok, err, ◌>>=◌}
use gotchi.Db.Migrations.{MigrationSource}
use gotchi.Db.Manager as Db
use gotchi.Session as Session
use gotchi.Auth.Config as Auth
use gotchi.Password.Config as Password
use gotchi.App.Builder.{
  OtelConfig, CorsConfig, cors_defaults, validate_cors, Builder, new_builder, apply_defaults,
  validate_builder,
}

-- a call of each option function
pub data AppOption (Service : Type 0) : Type 0 where
  with_database with_port : Text → AppOption Service
  with_database_config : Db.Config → AppOption Service
  with_shutdown_timeout : ℤ → AppOption Service
  with_auth : Auth.Config → AppOption Service
  with_identity_store with_login_handler with_open_api with_clock with_logger :
      Service → AppOption Service
  with_password_auth : Password.PasswordConfig → AppOption Service
  with_sessions : Session.Config → AppOption Service
  with_otel : OtelConfig → AppOption Service
  with_cors : Text → List Text → AppOption Service
  with_cors_config : CorsConfig → AppOption Service
  with_core_migrations with_auth_migrations with_password_migrations : AppOption Service
  with_no_default_middleware : AppOption Service
  with_migrations : List MigrationSource → AppOption Service
  with_middleware with_module : List Service → AppOption Service

module _ {Service : Type 0} where
  unfoldable pub set_cors : CorsConfig → Builder Service → Result (Builder Service)
  unfolding validate_cors
  set_cors c b = validate_cors c >>= (λ u. ok (record b { cors_config = some c }))

  unfoldable pub apply : AppOption Service → Builder Service → Result (Builder Service)
  unfolding set_cors cors_defaults
  apply (with_database url) b = ok (record b {
    db_config = some (record {
      database_url = url;
      search_path = [];
      enable_slog_tracing = false;
      otel_tracing = false;
    });
  })
  apply (with_port port) b = ok (record b { port = port })
  apply (with_database_config c) b = ok (record b { db_config = some c })
  apply (with_shutdown_timeout t) b =
      if leb_ℤ t (pos 0)
      then err (plain "shutdown timeout must be positive")
      else ok (record b { shutdown_timeout = t })
  apply (with_auth c) b = ok (record b { auth_config = some c })
  apply (with_identity_store s) b = ok (record b { identity_store = some s })
  apply (with_login_handler s) b = ok (record b { login_handler = some s })
  apply (with_open_api s) b = ok (record b { open_api_config = some s })
  apply (with_clock s) b = ok (record b { clock = some s })
  apply (with_logger s) b = ok (record b { logger = some s })
  apply (with_password_auth c) b = ok (record b { password_config = some c })
  apply (with_sessions c) b = ok (record b { session_config = some c })
  apply (with_otel c) b = ok (record b { otel_config = some c })
  apply (with_cors first rest) b = set_cors (cors_defaults first rest) b
  apply (with_cors_config c) b = set_cors c b
  apply with_core_migrations b = ok (record b { enable_core_migrations = true })
  apply with_auth_migrations b = ok (record b { enable_auth_migrations = true })
  apply with_password_migrations b = ok (record b { enable_password_migrations = true })
  apply with_no_default_middleware b = ok (record b { disable_default_middleware = true })
  apply (with_migrations sources) b =
      ok (record b { migration_sources = b.migration_sources ++ sources })
  apply (with_middleware mw) b = ok (record b { middleware = b.middleware ++ mw })
  apply (with_module modules) b = ok (record b { modules = b.modules ++ modules })

  -- the loop of New
  unfoldable pub apply_all : List (AppOption Service) → Builder Service → Result (Builder Service)
  unfolding apply
  apply_all [] b = ok b
  apply_all (o ∷ options) b = apply o b >>= apply_all options

  -- the configuration of the Application that New returns
  unfoldable pub new_application :
      Service → Service → List (AppOption Service) → Result (Builder Service)
  unfolding apply_all
  new_application logger clock options = apply_all options new_builder >>= (λ b.
      let built = apply_defaults logger clock b in validate_builder built >>= (λ u. ok built))
