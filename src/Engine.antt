-- ===== src/Engine.antt =====
-- internal/engine: the operations on branches and sources, over the registry and a container runtime.
pub mod Names
pub mod World
pub mod Actions
pub mod Layers
pub mod Instances
pub mod Readiness
pub mod Provision
pub mod Create
pub mod Destroy
pub mod Recover
pub mod Freeze
pub mod Sources
pub mod Drift
pub mod Reconcile
pub mod Fresh
pub mod Checks
pub mod Admission
pub mod Freezing
pub mod Waiting
pub mod Tidy
pub mod Collecting
pub mod Grants
pub mod Burial
pub mod Mounts
pub mod Flow
mod Host
mod Tests
mod FreezeTests
