-- ===== src/Tests.antt =====
-- Concrete instances of the interfaces, and runs of the code on small inputs.
pub mod Tables
pub mod Locks
pub mod Pages
pub mod Places
pub mod Coding
pub mod Index
pub mod Builder
pub mod Wal
pub mod Writes
pub mod Manager
pub mod Buffers
pub mod Records
pub mod CacheRuns
pub mod PageDb
