-- ===== src/Fusion.antt =====
-- internal/fusion/: how logical cells share physical instances.
pub mod Plan
