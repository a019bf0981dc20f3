-- ===== src/App/Middleware.antt =====
-- setupMiddleware of app/app.go, and the migration sources of Run.
use gotchi.Base.{
  Bool, true, false, Option, none, some, List, [], ◌∷◌, ◌++◌, Text, codes, is_empty, if◌then◌else◌,
}
use gotchi.Db.Migrations.{Fs, MigrationSource}
use gotchi.Auth.Config as Auth
use gotchi.Auth.Default
use gotchi.App.Builder.{OtelConfig, or_true, tracing_enabled, metrics_enabled, CorsConfig, Builder}

-- a middleware of the router; the first in the list sees the request first
pub data Layer (Service : Type 0) : Type 0 where
  real_ip logger recoverer : Layer Service
  cors : CorsConfig → Layer Service
  otel_tracing otel_metrics : Layer Service
  load_and_save : Layer Service
  -- CorrelationAndAudit with its key
  correlation : Text → Layer Service
  custom : Service → Layer Service

-- OTELConfig.WithDefaults, and Enabled set
unfoldable pub resolve_otel : OtelConfig → OtelConfig
resolve_otel c = record {
  enabled = true;
  enable_tracing = or_true c.enable_tracing;
  enable_metrics = or_true c.enable_metrics;
}

abbrev pub key_or_default : Option Auth.Config → Text
key_or_default none = Default.session_key
key_or_default (some c) = if is_empty c.session_key then Default.session_key else c.session_key

abbrev pub source_if : Bool → Fs → List MigrationSource
source_if false fs = []
source_if true fs = record { fs = fs; dir = codes "." } ∷ []

module _ {Service : Type 0} where
  abbrev pub default_layers : Bool → List (Layer Service)
  default_layers true = []
  default_layers false = real_ip ∷ (logger ∷ (recoverer ∷ []))

  abbrev pub cors_layers : Option CorsConfig → List (Layer Service)
  cors_layers none = []
  cors_layers (some c) = cors c ∷ []

  abbrev pub otel_layers : Option OtelConfig → List (Layer Service)
  unfolding tracing_enabled metrics_enabled
  otel_layers none = []
  otel_layers (some c) =
      (if tracing_enabled c then otel_tracing ∷ [] else [])
      ++ (if metrics_enabled c then otel_metrics ∷ [] else [])

  abbrev pub session_layers : Bool → Text → List (Layer Service)
  session_layers false key = []
  session_layers true key = load_and_save ∷ (correlation key ∷ [])

  abbrev pub custom_layers : List Service → List (Layer Service)
  custom_layers [] = []
  custom_layers (s ∷ services) = custom s ∷ custom_layers services

  -- whether there is a session manager, and the resolved OTEL configuration
  unfoldable pub setup_middleware :
      Builder Service → Option OtelConfig → Bool → List (Layer Service)
  unfolding otel_layers
  setup_middleware b otel has_sessions =
      default_layers b.disable_default_middleware
      ++ (cors_layers b.cors_config
          ++ (otel_layers otel
              ++ (session_layers has_sessions (key_or_default b.auth_config)
                  ++ custom_layers b.middleware)))

  -- the sources that Run adds; the three file systems are those of package migrations
  unfoldable pub migration_sources : Fs → Fs → Fs → Builder Service → List MigrationSource
  migration_sources core auth password b =
      source_if b.enable_core_migrations core
      ++ (source_if b.enable_auth_migrations auth
          ++ (source_if b.enable_password_migrations password ++ b.migration_sources))
