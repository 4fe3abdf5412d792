-- ===== src/Ext.antt =====
-- ext/: what an extension of the host sees.
pub mod Scope
pub mod Providers
pub mod Factory
pub mod Grants
