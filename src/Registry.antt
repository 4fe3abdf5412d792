-- ===== src/Registry.antt =====
-- registry/: the content-addressed module registry.
pub mod Version
pub mod Store
pub mod Verify
pub mod Resolve
