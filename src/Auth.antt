-- ===== src/Auth.antt =====
-- Package auth: OpenID Connect login, tenant selection and the middleware that guards routes.
pub mod Default
pub mod Config
pub mod Oidc
pub mod Subject
pub mod Handler
pub mod Journey
pub mod Fixture
pub mod Tests
pub mod Middleware
