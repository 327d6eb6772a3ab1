-- ===== src/Manifest.antt =====
-- pkg/index/manifest.go: the versioned list of segments of an index, kept in the store under one key
-- for each version and published by a conditional put.
pub mod Key
pub mod Versions
mod KeyOrder
pub mod History
pub mod Publish
pub mod Atomic
pub mod Plain
mod Tests
pub mod Others
