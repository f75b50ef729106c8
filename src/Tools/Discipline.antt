-- ===== src/Tools/Discipline.antt =====
-- The tools keep the invariant of the process: they never wait for a lock that they hold themselves,
-- they close READ transactions and never commit or roll one back, and they neither close a WRITE or a
-- SCHEMA transaction.
pub mod Windows
pub mod Handlers
pub mod Informing
pub mod Databases
pub mod Delete
