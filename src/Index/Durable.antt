-- ===== src/Index/Durable.antt =====
-- The documents in the runs of pkg/index/index.go: those acknowledged, and where they are.

use s3search.Base.{ℕ, ◌≡◌, Bytes, List, [], ◌∷◌, ◌++◌, false, ok}
use s3search.Json.{Json}
use s3search.Store.Blob.{BlobStore}
use s3search.Manifest.Versions.{ManifestJson}
use s3search.Index.Memtable.{Settings, Memtable}
use s3search.Index.Ops.{Index, FlushConfig, open_index}
use s3search.Index.Kept.{Built, Kept}
use s3search.Index.Reopened.{Agree}
use s3search.Index.Runs.{World}

module _ (set : Settings) (json : Json) (bs : BlobStore) (mjson : ManifestJson) (name : Bytes)
    (cfg : FlushConfig) where
  abbrev AnyWorld : Type 0
  AnyWorld = World set json bs mjson name cfg

  -- the documents of the snapshots, in their order
  abbrev pub Covers : List (Memtable set) → List Bytes → Type 0
  Covers [] ps = ps ≡ []
  Covers (snap ∷ snaps) ps =
      (of_snap : List Bytes) × (rest : List Bytes) × (ps ≡ of_snap ++ rest)
      × Built set json snap of_snap
      × Covers snaps rest

  -- Every document of a call that gave no error is in a published snapshot or is kept, once, in order.
  pub record Durable (w : AnyWorld) : Type 0 where
    pub of_published : List Bytes
    pub waiting : List Bytes
    pub acked_is : w.acked ≡ of_published ++ waiting
    pub covers : Covers w.published of_published
    pub kept : Kept set json w.idx waiting
    pub clean : w.idx.wal.buf ≡ []

  -- What `Open` after the end of a process finds, with the snapshots that are both published and in the log.
  pub record Recovered (now : ℕ) (marshalled : Bytes) (w : AnyWorld) (s : bs.State)
      (twice : List (Memtable set)) : Type 0 where
    pub new_idx : Index set
    pub new_store : bs.State
    pub opens :
        open_index set json bs name now false w.idx.wal.file s marshalled ≡ ok (new_idx, new_store)
    pub of_published : List Bytes
    pub waiting : List Bytes
    pub acked_is : w.acked ≡ of_published ++ waiting
    pub covers : Covers w.published of_published
    pub built : Built set json new_idx.memtable waiting
    pub of_twice : List Bytes
    pub once : List Bytes
    pub split : waiting ≡ of_twice ++ once
    pub twice_covers : Covers twice of_twice

  module _ (agree : Agree set json) where
    -- the waiting documents that a snapshot published before the log is cut has too
    Repeats : AnyWorld → List (Memtable set) → List Bytes → Type 0
    Repeats w twice waiting =
        (of_twice : List Bytes) × (once : List Bytes) × (waiting ≡ of_twice ++ once)
        × Covers twice of_twice
