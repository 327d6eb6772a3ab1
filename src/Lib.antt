-- ===== src/Lib.antt =====
-- s3search is a full-text search server whose indexes live in an S3-compatible object store. A
-- document is appended to a local write-ahead log (pkg/wal), collected in memory (pkg/index), written
-- to the store as an immutable segment (pkg/segment, pkg/postings, pkg/docstore), and made visible by a
-- new version of the manifest of its index, which is published by a conditional put
-- (pkg/index/manifest.go). The executable definitions here are translated from the Go sources.
--
-- Wal models pkg/wal/wal.go. `Wal.Buffer` is the file with its offset behind the bufio.Writer of 64 KB,
-- `Wal.Checksum` is crc32.ChecksumIEEE, `Wal.Log` has Append, Flush, DiscardBuffer, Truncate,
-- TruncatePrefix, Position, Close, IsEmpty and truncateToOffset, `Wal.Replay` has Replay, and `Wal.Open`
-- has Open with migrateV1ToV2. A system call on the file is taken to succeed.
-- Postings models the positions of pkg/postings/postings.go, with encoding/binary's varints.
-- Segment models the files of a segment: the footer of pkg/segment/format.go, the hotcache of
-- pkg/segment/hotcache.go, pkg/segment/writer.go in `Segment.Accumulator` and `Segment.Build`, and
-- pkg/segment/reader.go in `Segment.Reader`, which reads the ranges that the hotcache names from Store.
-- Store models the interface of pkg/store/store.go, as a record of operations and laws, and its
-- implementation internal/testutil/memstore.go, which fills that record.
-- Manifest models pkg/index/manifest.go over the interface of Store. Its abstract view is an append-only
-- list of manifests (`Manifest.History`). The retry loops take the writes of others as a function of the
-- step, which acts before every read and before every put.
-- Docstore models pkg/docstore/docstore.go, with zstd as a parameter that decodes what it encoded.
-- Analyze models the tokenizer of pkg/analyze/analyze.go.
-- Index models pkg/index/memtable.go and pkg/index/index.go. `Index.Ops` has the methods, `Index.Flush` has
-- runFlush, and `Index.Runs` is the relation of the steps that a single writer, the background flush and
-- processes that stop between two calls make. A method is one step, so that what waits for a flush starts
-- after it, and a flush publishes and cuts the log in one step; `Index.Runs.Stopped` has the stop between
-- the two. FlushNow releases the lock while it runs its flush, and no other writer comes between. It is a
-- client of Wal, Manifest, Segment and Docstore.
-- Cache models the LRU cache of pkg/cache/hotcache.go, Schema pkg/schema/schema.go, and Auth pkg/auth/auth.go.
-- Query models pkg/query/exec.go as far as the sets of documents go, over the query tree of
-- pkg/query/dsl.go and the hotcache of pkg/segment/hotcache.go. `Query.Matches` is the description of a
-- query's answer, document by document, that `Query.Answers` compares the evaluation with. Roaring bitmaps
-- are a parameter with the laws of sets (`Query.Bitmap`); scores are left out. `Query.Lexer` and
-- `Query.Parser` model pkg/query/parser.go.
-- Search models Search of pkg/search/search.go, with SegmentSearch of pkg/query/exec.go from the scored
-- documents on; a client of Manifest.
-- Delete models pkg/index/delete.go, a client of Query, Manifest and the hotcache of Segment.
-- Compactor models the collection of garbage, the choice of what to merge and the published lists of segments of
-- pkg/index/compactor.go, and that of pkg/index/delete.go. It is a client of Manifest: what a merge
-- publishes goes through the retry loop there, and GC reads the latest manifest.
--
-- Numbers are natural numbers with the wrap-around of their Go type written out; a byte string is a list
-- of numbers. Fallible code gives an `Outcome`: a result, an error, a panic, or `stuck` where a loop on
-- fuel ran out. `replay` runs on the length of the file, since each round reads eight bytes or more, and
-- `decode_positions` on the length of its input, since each round reads two.
-- The retry loops run on the retries that they are given. The parser runs on six steps for each byte of
-- its input and six more: at most six calls stand between two that read something.
--
-- Parameters are encoding/json, of which `Json` states what Compact and Valid promise, and at the type
-- Manifest that a manifest can be read back (`ManifestJson`); zstd, the roaring bitmaps, the ordered map of
-- terms, fastjson's parser, the tables of unicode, in Query and Delete a segment's reader and the
-- tokenizer, and in Search what a segment scores and its sources are further ones. Not modelled are the
-- re-indexing of a merge, the lookup of a hotcache in the cache by a search, how scores are computed (floating-point numbers), the HTTP server, the metrics, the command line, the MinIO client
-- and the test-data generator.
pub mod Base
pub mod Json
pub mod Store
pub mod Wal
pub mod Postings
pub mod Segment
pub mod Manifest
pub mod Compactor
pub mod Schema
pub mod Docstore
pub mod Analyze
pub mod Index
pub mod Query
pub mod Cache
pub mod Auth
pub mod Delete
pub mod Search
