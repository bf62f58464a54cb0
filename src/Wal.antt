-- ===== src/Wal.antt =====
-- src/wal: the write-ahead log.
pub mod Record
pub mod Segment
pub mod Lsn
pub mod Writer
pub mod Aries
pub mod Checkpoint
pub mod Examples
