-- ===== src/Proxy.antt =====
-- internal/pgproxy: the router that sends Postgres connections to branches.
pub mod Cancel
pub mod Sessions
pub mod Follows
pub mod Startup
pub mod Split
pub mod Frames
mod Tests
