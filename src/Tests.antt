-- ===== src/Tests.antt =====
-- Runs of the models, and the theorems at concrete inputs.
mod Basics
mod Scopes
mod Plans
mod Doors
mod Versions
mod Transactions
mod Supervisors
mod Providers
mod Factories
mod Collapses
mod Schedules
mod Locks
mod Manifests
mod Compositions
mod Placements
mod Units
mod Fusions
mod Hosts
mod Grants
mod Resolutions
mod Journals
mod Deployments
