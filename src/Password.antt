-- ===== src/Password.antt =====
-- auth/password: local username and password authentication.
pub mod Config
pub mod Policy
pub mod Store
pub mod Reach
pub mod Hasher
pub mod Handler
pub mod Fixture
mod Tests
