-- ===== src/App/Tests.antt =====
-- An application of a few options, and the theorems at inputs that meet their hypotheses.
use gotchi.Base.{◌≡◌, refl, List, ◌∷◌, [], true, false, none, some, pos, codes, Text}
use gotchi.Errors.{ok, err, plain}
use gotchi.Auth.Default
use gotchi.Password.Fixture.{config}
use gotchi.App.Builder.{Builder, new_builder, apply_defaults, validate_builder}
use gotchi.App.Options.{
  AppOption, with_database, with_password_auth, with_shutdown_timeout, with_middleware, apply,
  apply_all, new_application,
}
use gotchi.Db.Manager.{Driver, Manager, ping}
use gotchi.Db.Fixture.{driver, db_config}
use gotchi.App.Run.{Parts, cancelled, closed}
use gotchi.App.Ready.{IsReady, new_application-IsReady}

-- services are texts; the password login has a session key of its own
abbrev options : List (AppOption Text)
options =
    with_database (codes "postgres://")
    ∷ (with_password_auth (record config { session_key = codes "pw" })
        ∷ (with_shutdown_timeout (pos 7) ∷ (with_middleware (codes "mine" ∷ []) ∷ [])))

abbrev configured : Builder Text
configured = record new_builder {
  db_config = some (record {
    database_url = codes "postgres://";
    search_path = [];
    enable_slog_tracing = false;
    otel_tracing = false;
  });
  password_config = some (record config { session_key = codes "pw" });
  shutdown_timeout = pos 7;
  middleware = codes "mine" ∷ [];
}

abbrev built : Builder Text
unfolding apply_defaults
built = apply_defaults (codes "log") (codes "clock") configured

made : new_application (codes "log") (codes "clock") options ≡ ok built
unfolding new_application apply_all apply validate_builder apply_defaults
made = refl

new_application-IsReady_example : IsReady built
new_application-IsReady_example =
    new_application-IsReady (codes "log") (codes "clock") options built made

abbrev parts : Parts Text
parts = record {
  setup_otel = λ c. none;
  core = record { read_dir = λ dir. ok []; read_file = λ path. err (plain "none") };
  auth = record { read_dir = λ dir. ok []; read_file = λ path. err (plain "none") };
  password = record { read_dir = λ dir. ok []; read_file = λ path. err (plain "none") };
  new_identity_store = ok (codes "store");
  is_postgres = λ s. true;
  new_oidc_handler = λ s. none;
  new_password_store = λ s. none;
  register = λ m. none;
  ending = cancelled none closed;
}

-- a server that answers
abbrev answering : Driver
answering = record driver { ping = λ pool ctx. none }

abbrev migrating : Builder Text
migrating = record configured { enable_core_migrations = true }

abbrev fresh : Manager answering
fresh = record { cfg = db_config; pool = none; migration_files = [] }
