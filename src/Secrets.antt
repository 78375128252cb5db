-- ===== src/Secrets.antt =====
-- internal/registry/crypto.go: passwords at rest. Texts, keys and stored values are lists of bytes.
pub mod Box
pub mod Opening
pub mod Rotation
pub mod Passwords
mod Tests
