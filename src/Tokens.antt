-- ===== src/Tokens.antt =====
-- internal/registry/tokens.go: the API tokens of the registry.
pub mod Table
pub mod Lookup
pub mod Revoke
pub mod Runs
mod Tests
