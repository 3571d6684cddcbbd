-- ===== src/Wal.antt =====
-- src/wal.c: the records of the write-ahead log.
pub mod Commit
pub mod Size
