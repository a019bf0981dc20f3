-- ===== src/Db.antt =====
-- Package db (db/db.go): tenants on pooled connections, migrations, and the manager of both.
pub mod Tenancy
pub mod Migrations
pub mod Tracing
pub mod Manager
pub mod Fixture
pub mod Tests
