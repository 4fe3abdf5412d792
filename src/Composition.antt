-- ===== src/Composition.antt =====
-- composition/: how modules reach each other through contracts.
pub mod Contracts
