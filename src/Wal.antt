-- ===== src/Wal.antt =====
-- pkg/wal/wal.go: the write-ahead log. `Buffer` is the file behind its buffered writer, `Checksum`
-- is crc32, `Log` has the operations of the type `WAL`, `Replay` the recovery of records and `Open`
-- the start with its migration. The other modules hold the proofs.
pub mod Buffer
pub mod Checksum
pub mod Log
pub mod Replay
pub mod Open
pub mod Contents
pub mod Frames
pub mod Recovery
mod Torn
mod AnyFile
pub mod Prefix
pub mod Start
mod Discard
mod Tests
