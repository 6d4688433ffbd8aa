-- ===== src/Journal.antt =====
-- The event journal: segments of records in memory-mapped files, their writer and their reader.
pub mod File
pub mod Format
pub mod Disk
pub mod Writer
pub mod Appends
pub mod Paths
pub mod Reader
pub mod Contents
pub mod Append
pub mod Drain
pub mod Directory
mod Tests
