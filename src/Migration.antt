-- ===== src/Migration.antt =====
-- Database migration: crates/typedb-mcp-core/src/migration.rs.
pub mod Frames
pub mod Paths
pub mod Disk
pub mod Checks
pub mod Jobs
pub mod Supervisor
pub mod Backend
