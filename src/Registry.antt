-- ===== src/Registry.antt =====
-- internal/registry: the SQLite store of sources, branches, layers and their audit trail.
pub mod Types
pub mod Actor
pub mod Sql
pub mod Branches
pub mod Updates
pub mod Sources
pub mod Layers
pub mod Queries
pub mod Referring
pub mod Lookups
pub mod Run
pub mod Trail
pub mod Sound
pub mod Growth
pub mod Lifecycle
pub mod Forest
pub mod Volumes
pub mod Outcome
mod Tests
