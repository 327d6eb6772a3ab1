-- ===== src/Store.antt =====
-- pkg/store/store.go: the interface `BlobStore`, with the behaviour of an S3-compatible store that the
-- program relies on as its laws. A request is taken to reach the store. `Mem` is the in-memory
-- implementation of internal/testutil, which meets the laws.
pub mod Blob
pub mod Mem
pub mod Laws
