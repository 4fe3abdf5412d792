-- ===== src/Reconcile.antt =====
-- internal/reconcile/: the transaction that replaces a live dependency graph.
pub mod Diff
pub mod Transaction
pub mod Journal
