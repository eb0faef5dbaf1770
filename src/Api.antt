-- ===== src/Api.antt =====
-- The HTTP API's own state and gates: internal/api.
pub mod AdminAuth
pub mod Signatures
pub mod Failures
pub mod Access
pub mod Responses
mod Tests
