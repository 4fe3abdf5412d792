-- ===== src/Host.antt =====
-- internal/host: the runtime of one cell.
pub mod Supervisor
