-- ===== src/App.antt =====
-- The running server: internal/app.
pub mod Lifecycle
