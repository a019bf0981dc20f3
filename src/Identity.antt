-- ===== src/Identity.antt =====
-- auth/types.go and auth/postgres_store.go: users, tenants and memberships.
pub mod Types
pub mod Store
pub mod Invariant
pub mod Members
pub mod Stranded
mod Tests
