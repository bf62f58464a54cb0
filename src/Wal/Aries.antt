-- ===== src/Wal/Aries.antt =====
-- src/wal/aries.rs: the recovery of the data file from the log after a crash.
pub mod Payload
pub mod Analysis
pub mod Redo
pub mod Undo
