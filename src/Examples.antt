-- ===== src/Examples.antt =====
-- The theorems at concrete inputs.
pub mod Demo
pub mod Sessions
pub mod Inputs
pub mod Helpers
pub mod Disk
pub mod Supervising
pub mod Drivers
pub mod Routes
pub mod Advising
pub mod Migrating
pub mod Ending
