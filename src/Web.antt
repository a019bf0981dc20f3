-- ===== src/Web.antt =====
-- HTTP as the handlers see it: requests, responses, contexts and sessions.
pub mod Http
pub mod Context
pub mod Tenant
pub mod Session
pub mod Handling
pub mod Address
