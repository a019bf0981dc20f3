-- ===== src/Db/Fixture.antt =====
-- A small driver and configuration, on which the theorems are tried.
use gotchi.Base.{ℕ, none, some, false, codes}
use gotchi.Errors.{plain, ok}
use gotchi.Db.Tracing.{QueryTracer}
use gotchi.Db.Manager.{Config, Driver}

abbrev pub idle_tracer : QueryTracer (Unit {0}) (Unit {0})
idle_tracer = record { trace_query_start = λ c. c; trace_query_end = λ c l. l }

-- a server that takes connections and does not answer the ping
abbrev pub driver : Driver
driver = record {
  Pool = ℕ;
  Ctx = Unit {0};
  Log = Unit {0};
  parse_config = λ url.
      ok
        (record { tracer = none; search_path = none; before_acquire = none; after_release = none });
  new_with_config = λ c. ok 1;
  ping = λ pool ctx. some (plain "no answer");
  slog_tracer = idle_tracer;
  otel_tracer = idle_tracer;
  set_dialect = none;
  up = λ ctx pool files. none;
}

abbrev pub db_config : Config
db_config = record {
  database_url = codes "postgres://";
  search_path = codes "app";
  enable_slog_tracing = false;
  otel_tracing = false;
}
