-- ===== src/App/Builder.antt =====
-- builder and CORSConfig of app/option.go. `Service` stands for what the application passes through:
-- handlers, middleware, modules, identity stores, clocks and loggers.
use gotchi.Base.{
  ℤ, pos, is_zero, Bool, true, false, ◌&&◌, ◌||◌, Option, none, some, List, [], ◌∷◌, Text, codes,
  same, any, is_empty, if◌then◌else◌,
}
use gotchi.Errors.{plain, Result, ok, err}
use gotchi.Db.Migrations.{MigrationSource}
use gotchi.Db.Manager as Db
use gotchi.Session as Session
use gotchi.Auth.Config as Auth
use gotchi.Password.Config as Password

pub record OtelConfig : Type 0 where
  pub enabled : Bool
  pub enable_tracing : Option Bool
  pub enable_metrics : Option Bool

abbrev pub or_true : Option Bool → Option Bool
or_true none = some true
or_true (some b) = some b

abbrev pub is_true : Option Bool → Bool
is_true none = false
is_true (some b) = b

unfoldable pub tracing_enabled : OtelConfig → Bool
tracing_enabled c = c.enabled && is_true c.enable_tracing

unfoldable pub metrics_enabled : OtelConfig → Bool
metrics_enabled c = c.enabled && is_true c.enable_metrics

pub record CorsConfig : Type 0 where
  pub allowed_origins : List Text
  pub allow_credentials : Bool

-- corsDefaults
unfoldable pub cors_defaults : Text → List Text → CorsConfig
cors_defaults first rest = record { allowed_origins = first ∷ rest; allow_credentials = true }

abbrev pub is_wildcard : Text → Bool
is_wildcard o = same o (codes "*")

abbrev pub is_none : List Text → Bool
is_none [] = true
is_none (o ∷ os) = false

-- CORSConfig.validate
unfoldable pub validate_cors : CorsConfig → Result (Unit {0})
validate_cors c =
    if is_none c.allowed_origins
    then err (plain "CORS requires at least one allowed origin")
    else (if any (λ o. is_wildcard o && c.allow_credentials) c.allowed_origins
        then err (plain "CORS wildcard origin (*) is incompatible with AllowCredentials: true")
        else ok tt)

pub record Builder (Service : Type 0) : Type 0 where
  pub port : Text
  -- in nanoseconds
  pub shutdown_timeout : ℤ
  pub db_config : Option Db.Config
  pub session_config : Option Session.Config
  pub auth_config : Option Auth.Config
  pub identity_store : Option Service
  pub login_handler : Option Service
  pub password_config : Option Password.PasswordConfig
  pub otel_config : Option OtelConfig
  pub cors_config : Option CorsConfig
  pub open_api_config : Option Service
  pub migration_sources : List MigrationSource
  pub enable_core_migrations : Bool
  pub enable_auth_migrations : Bool
  pub enable_password_migrations : Bool
  pub middleware : List Service
  pub disable_default_middleware : Bool
  pub modules : List Service
  pub clock : Option Service
  pub logger : Option Service

abbrev pub new_builder : {Service : Type 0} → Builder Service
new_builder = record {
  port = [];
  shutdown_timeout = pos 0;
  db_config = none;
  session_config = none;
  auth_config = none;
  identity_store = none;
  login_handler = none;
  password_config = none;
  otel_config = none;
  cors_config = none;
  open_api_config = none;
  migration_sources = [];
  enable_core_migrations = false;
  enable_auth_migrations = false;
  enable_password_migrations = false;
  middleware = [];
  disable_default_middleware = false;
  modules = [];
  clock = none;
  logger = none;
}

-- the session configuration, the empty one where there is none
abbrev pub or_empty_session : Option Session.Config → Option Session.Config
or_empty_session none = some Session.empty_config
or_empty_session (some c) = some c

abbrev pub or_service : {Service : Type 0} → Option Service → Service → Option Service
or_service none s = some s
or_service (some t) s = some t

abbrev pub validate_auth : Option Auth.Config → Result (Unit {0})
validate_auth none = ok tt
validate_auth (some c) =
    if is_empty c.issuer_url
      || is_empty c.client_id
      || is_empty c.client_secret
      || is_empty c.redirect_url
    then err (plain "OIDC issuer/client credentials/redirect URL are required when auth is enabled")
    else ok tt

abbrev pub validate_db : Option Db.Config → Result (Unit {0}) → Result (Unit {0})
validate_db none rest = err (plain "database is required: use WithDatabase or WithDatabaseConfig")
validate_db (some c) rest =
    if is_empty c.database_url then err (plain "database URL is required") else rest

module _ {Service : Type 0} where
  abbrev pub default_auth : Option Auth.Config → Builder Service → Builder Service
  default_auth none b = b
  default_auth (some c) b = record b {
    auth_config = some (Auth.with_defaults c);
    session_config = or_empty_session b.session_config;
  }

  abbrev pub default_password : Option Password.PasswordConfig → Builder Service → Builder Service
  default_password none b = b
  default_password (some c) b = record b {
    password_config = some (Password.with_defaults c);
    session_config = or_empty_session b.session_config;
  }

  -- applyDefaults; `logger` and `clock` are slog.Default() and realClock
  unfoldable pub apply_defaults : Service → Service → Builder Service → Builder Service
  apply_defaults logger clock b =
      let b1 : Builder Service = record b {
        port = if is_empty b.port then codes "3000" else b.port;
        shutdown_timeout =
            if is_zero b.shutdown_timeout then pos 5000000000 else b.shutdown_timeout;
      } in
      let b2 : Builder Service = default_auth b1.auth_config b1 in
      let b3 : Builder Service = default_password b2.password_config b2 in
      record b3 { logger = or_service b3.logger logger; clock = or_service b3.clock clock }

  -- builder.validate
  unfoldable pub validate_builder : Builder Service → Result (Unit {0})
  validate_builder b = validate_db b.db_config (validate_auth b.auth_config)
