-- ===== src/App.antt =====
-- Package app (app/app.go, app/option.go): options, New and the middleware of an application.
pub mod Builder
pub mod Options
pub mod Middleware
pub mod Safe
pub mod Ready
pub mod Chain
pub mod Run
pub mod Served
pub mod Tests
