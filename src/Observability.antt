-- ===== src/Observability.antt =====
-- observability/middleware.go: the identifier of a request, and the audit log. OpenTelemetry is in
-- App/Run, as far as the application configures it.
pub mod Recorder
pub mod Audit
mod Tests
