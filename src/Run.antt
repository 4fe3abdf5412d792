-- ===== src/Run.antt =====
-- run/: the host's runtime.
pub mod Endpoints
pub mod CrossCalls
