-- ===== src/Registry/Sound.antt =====
-- The invariant of the registry's tables and its preservation by every operation.
pub mod Keys
pub mod Moves
pub mod Branches
pub mod Repairs
pub mod Creation
pub mod Layers
pub mod Sources
pub mod Runs
pub use Keys.{IsSound}
