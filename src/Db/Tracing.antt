-- ===== src/Db/Tracing.antt =====
-- Query tracers of db/db.go: setupTracing, and multiTracer, which runs several as one.
use gotchi.Base.{Bool, true, false, Option, none, some, List, [], ◌∷◌}

-- pgx.QueryTracer: what the start of a query makes of its context, and what the end records
pub record QueryTracer (Ctx Log : Type 0) : Type 0 where
  pub trace_query_start : Ctx → Ctx
  pub trace_query_end : Ctx → Log → Log

module _ {Ctx Log : Type 0} where
  unfoldable pub start_all : List (QueryTracer Ctx Log) → Ctx → Ctx
  start_all [] ctx = ctx
  start_all (t ∷ tracers) ctx = start_all tracers (t.trace_query_start ctx)

  -- from the last tracer to the first
  unfoldable pub end_all : List (QueryTracer Ctx Log) → Ctx → Log → Log
  end_all [] ctx log = log
  end_all (t ∷ tracers) ctx log = t.trace_query_end ctx (end_all tracers ctx log)

  unfoldable pub multi_tracer : List (QueryTracer Ctx Log) → QueryTracer Ctx Log
  unfolding start_all end_all
  multi_tracer tracers = record {
    trace_query_start = λ ctx. start_all tracers ctx;
    trace_query_end = λ ctx log. end_all tracers ctx log;
  }

  -- the tracers that are switched on; `slog` and `otel` stand for those of the libraries
  abbrev pub chosen :
      Bool → Bool → QueryTracer Ctx Log → QueryTracer Ctx Log → List (QueryTracer Ctx Log)
  chosen false false slog otel = []
  chosen true false slog otel = slog ∷ []
  chosen false true slog otel = otel ∷ []
  chosen true true slog otel = slog ∷ (otel ∷ [])

  -- the Tracer that is set, or none for the one before
  abbrev pub as_tracer : List (QueryTracer Ctx Log) → Option (QueryTracer Ctx Log)
  unfolding multi_tracer
  as_tracer [] = none
  as_tracer (t ∷ []) = some t
  as_tracer (t ∷ (u ∷ tracers)) = some (multi_tracer (t ∷ (u ∷ tracers)))

  abbrev or_before :
      Option (QueryTracer Ctx Log) → Option (QueryTracer Ctx Log) → Option (QueryTracer Ctx Log)
  or_before before none = before
  or_before before (some t) = some t

  unfoldable pub setup_tracing :
      Bool
      → Bool
      → QueryTracer Ctx Log
      → QueryTracer Ctx Log
      → Option (QueryTracer Ctx Log)
      → Option (QueryTracer Ctx Log)
  unfolding as_tracer
  setup_tracing slog_on otel_on slog otel before =
      or_before before (as_tracer (chosen slog_on otel_on slog otel))
