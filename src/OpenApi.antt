-- ===== src/OpenApi.antt =====
-- openapi/openapi.go: the validation middleware. The documents and their validation are the library
-- libopenapi, a parameter; what it is asked is the request and the bytes of its body.
pub mod Body
pub mod Validator
pub mod Outcomes
mod Tests
