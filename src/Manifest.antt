-- ===== src/Manifest.antt =====
-- internal/manifest/: cell and application manifests behind their TOML.
pub mod Config
pub mod Fields
pub mod Cells
pub mod Sets
pub mod Placements
pub mod Artifacts
pub mod Units
