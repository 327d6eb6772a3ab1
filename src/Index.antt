-- ===== src/Index.antt =====
-- pkg/index/memtable.go and pkg/index/index.go: the documents of one index on their way from a caller to a
-- segment. `Memtable` is memtable.go, `Ops` and `Flush` are index.go, and `Runs` is what a
-- process does with them, step by step.
pub mod Memtable
pub mod Flush
pub mod Ops
mod Kept
mod KeptBy
mod KeptByFlush
mod Reopened
mod Runs
mod Durable
mod FailedFlush
mod FlushedFiles
mod Plain
mod Tests
