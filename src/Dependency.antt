-- ===== src/Dependency.antt =====
-- internal/dependency/: deterministic dependency plans.
pub mod Plan
pub mod Collapse
pub mod Scheduler
