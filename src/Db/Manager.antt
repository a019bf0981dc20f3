-- ===== src/Db/Manager.antt =====
-- Manager of db/db.go, over the pool of pgx and the migrations of goose.
pub mod Opens
pub mod Applies
use gotchi.Base.{
  ◌≡◌, Bool, true, false, ◌||◌, Option, none, some, List, [], ◌∷◌, ◌++◌, Text, is_empty,
  if◌then◌else◌,
}
use gotchi.Errors.{Error, plain, wrap, Result, ok, err}
use gotchi.Web.Context.{Context}
use gotchi.Db.Tenancy.{Conn, Server, before_acquire, after_release, admin_context}
use gotchi.Db.Migrations.{MigrationSource, Files, merge_migration_sources, with_default_dir}
use gotchi.Db.Migrations.FlatFs.{flat_files}
use gotchi.Db.Tracing.{QueryTracer, setup_tracing}

pub record Config : Type 0 where
  pub database_url : Text
  pub search_path : Text
  pub enable_slog_tracing : Bool
  pub otel_tracing : Bool

-- the fields of pgxpool.Config that the program sets
pub record PoolConfig (Ctx Log : Type 0) : Type 0 where
  pub tracer : Option (QueryTracer Ctx Log)
  -- ConnConfig.RuntimeParams["search_path"]
  pub search_path : Option Text
  pub before_acquire : Option (Server → Context → Conn → Bool × Conn)
  pub after_release : Option (Server → Conn → Bool × Conn)

-- pgxpool, stdlib and goose
pub record Driver : Type 1 where
  pub Pool : Type 0
  pub Ctx : Type 0
  pub Log : Type 0
  pub parse_config : Text → Result (PoolConfig Ctx Log)
  pub new_with_config : PoolConfig Ctx Log → Result Pool
  pub ping : Pool → Context → Option Error
  pub slog_tracer : QueryTracer Ctx Log
  pub otel_tracer : QueryTracer Ctx Log
  pub set_dialect : Option Error
  -- goose.UpContext on the file system that SetBaseFS has set, as its list of files
  pub up : Context → Pool → Files → Option Error

abbrev pub not_initialized : Error
not_initialized = plain "database pool is not initialized"

module _ (d : Driver) where
  pub record Manager : Type 0 where
    pub cfg : Config
    pub pool : Option d.Pool
    pub migration_files : List MigrationSource

  unfoldable pub new_manager : Config → Manager
  new_manager cfg = record { cfg = cfg; pool = none; migration_files = [] }

  unfoldable pub add_migration_source : Manager → MigrationSource → Manager
  unfolding with_default_dir
  add_migration_source m source = record m {
    migration_files = m.migration_files ++ (with_default_dir source ∷ []);
  }

  unfoldable pub enable_otel_tracing : Manager → Manager
  enable_otel_tracing m = record m { cfg = record m.cfg { otel_tracing = true } }

  unfoldable pub setup_multitenancy : PoolConfig d.Ctx d.Log → PoolConfig d.Ctx d.Log
  setup_multitenancy p = record p {
    before_acquire = some before_acquire;
    after_release = some after_release;
  }

  abbrev pub with_search_path : Text → PoolConfig d.Ctx d.Log → PoolConfig d.Ctx d.Log
  with_search_path [] p = p
  with_search_path (c ∷ path) p = record p { search_path = some (c ∷ path) }

  -- the configuration that Connect makes of the parsed one
  unfoldable pub configure : Config → PoolConfig d.Ctx d.Log → PoolConfig d.Ctx d.Log
  unfolding setup_tracing setup_multitenancy
  configure cfg parsed =
      let traced =
        if cfg.enable_slog_tracing || cfg.otel_tracing
        then record parsed {
          tracer =
              setup_tracing cfg.enable_slog_tracing cfg.otel_tracing d.slog_tracer d.otel_tracer
                parsed.tracer;
        }
        else parsed in
      setup_multitenancy (with_search_path cfg.search_path traced)

  abbrev pub ping_pool : Option d.Pool → Context → Option Error
  ping_pool none ctx = some not_initialized
  ping_pool (some pool) ctx = d.ping pool ctx

  unfoldable pub ping : Manager → Context → Option Error
  ping m ctx = ping_pool m.pool ctx

  abbrev pub connected : Manager → Context → Result d.Pool → Option Error × Manager
  unfolding ping admin_context
  connected m ctx (err e) = (some e, m)
  connected m ctx (ok pool) =
      let m' : Manager = record m { pool = some pool } in (ping m' (admin_context (some ctx)), m')

  abbrev pub dial : Manager → Context → Result (PoolConfig d.Ctx d.Log) → Option Error × Manager
  unfolding configure connected
  dial m ctx (err e) = (some e, m)
  dial m ctx (ok parsed) = connected m ctx (d.new_with_config (configure m.cfg parsed))

  abbrev pub unless_connected :
      Option d.Pool → Option Error × Manager → Manager → Option Error × Manager
  unless_connected none fresh m = fresh
  unless_connected (some pool) fresh m = (none, m)

  unfoldable pub connect : Manager → Context → Option Error × Manager
  unfolding dial
  connect m ctx = unless_connected m.pool (dial m ctx (d.parse_config m.cfg.database_url)) m

  abbrev pub up_merged : d.Pool → Context → Result Files → Option Error
  unfolding admin_context
  up_merged pool ctx (err e) = some (wrap "merging migration sources" e)
  up_merged pool ctx (ok files) = d.up (admin_context (some ctx)) pool (flat_files files)

  abbrev pub unless_error : Option Error → Option Error → Option Error
  unless_error none next = next
  unless_error (some e) next = some e

  abbrev pub run_on : Option d.Pool → List MigrationSource → Context → Option Error
  unfolding up_merged merge_migration_sources
  run_on none sources ctx = some not_initialized
  run_on (some pool) [] ctx = none
  run_on (some pool) (source ∷ sources) ctx =
      unless_error d.set_dialect (up_merged pool ctx (merge_migration_sources (source ∷ sources)))

  unfoldable pub run_migrations : Manager → Context → Option Error
  unfolding run_on
  run_migrations m ctx = run_on m.pool m.migration_files ctx

  -- the error, and the pool that is closed
  unfoldable pub close : Manager → Option Error × Option d.Pool
  close m = (none, m.pool)
