-- ===== src/Index/Runs.antt =====
-- pkg/index/index.go over its runs, as a relation of steps: the calls of a single writer, the flush that runs
-- beside them, and processes that stop between two calls and open the log again. In a step a flush publishes
-- and cuts the log, since a call in between finds the index as it is before both. A process that stops between
-- the two is `Stopped`.
use Prim.{tt}
use s3search.Base.{ℕ, ◌≡◌, Bytes, List, [], ◌∷◌, ◌++◌, length, All, false, none, some, ok}
use s3search.Json.{Json}
use s3search.Store.Blob.{BlobStore}
use s3search.Manifest.Versions.{Manifest, ManifestJson}
use s3search.Wal.Frames.{Fits}
use s3search.Index.Memtable.{Settings, Memtable}
use s3search.Index.Flush.{run_flush}
use s3search.Index.Ops.{
  Flight, Index, FlushConfig, must_wait, index_add, add_batch, flush_async_end, flush_now,
  open_index,
}
use s3search.Index.Kept.{Compacted}

module _ (set : Settings) (json : Json) (bs : BlobStore) (mjson : ManifestJson) (name : Bytes)
    (cfg : FlushConfig) where
  -- An index, its store, the snapshots that `runFlush` has published, and the compact forms of the documents
  -- of all calls that gave no error.
  pub record World : Type 0 where
    pub idx : Index set
    pub store : bs.State
    pub published : List (Memtable set)
    pub acked : List Bytes

  -- How a process can stop between two calls of the writer: the store that it leaves, and the snapshots that
  -- are published there and still in the log. The background flush may not have published yet, with any part
  -- of its files in the store, or it may have published and not yet cut the log.
  pub data Stopped (w : World) : bs.State → List (Memtable set) → Type 0 where
    idle : Stopped w w.store []
    uploading : (f : Flight set) (s' : bs.State) → w.idx.flushing ≡ some f → Stopped w s' []
    published_first :
        (now : ℕ) (others : ℕ → bs.State → bs.State) (seg_id : Bytes) (f : Flight set)
        (s' : bs.State) (m : Manifest)
        → w.idx.flushing ≡ some f
        → run_flush bs set mjson name now others seg_id w.store f.snap ≡ ok (s', m)
        → Stopped w s' (f.snap ∷ [])

  pub data Step : World → World → Type 0 where
    added :
        (now : ℕ) (raw p : Bytes) (w : World)
        → json.compact raw ≡ some p
        → Fits p
        → (index_add set cfg json now w.idx raw).1 ≡ ok tt
        → Step w
            (record w { idx = (index_add set cfg json now w.idx raw).0; acked = w.acked ++ p ∷ [] })
    batched :
        (before now : ℕ) (raws ps : List Bytes) (w : World)
        → Compacted json raws ps
        → All Fits ps
        → must_wait set cfg before w.idx (length raws) ≡ false
        → (add_batch set cfg json now w.idx raws).1 ≡ ok tt
        → Step w
            (record w { idx = (add_batch set cfg json now w.idx raws).0; acked = w.acked ++ ps })
    refused :
        (now : ℕ) (raw : Bytes) (w : World)
        → json.compact raw ≡ none
        → Step w (record w { idx = (index_add set cfg json now w.idx raw).0 })
    flushed :
        (now : ℕ) (others : ℕ → bs.State → bs.State) (seg_id : Bytes) (w : World) (f : Flight set)
        (s' : bs.State) (m : Manifest)
        → w.idx.flushing ≡ some f
        → run_flush bs set mjson name now others seg_id w.store f.snap ≡ ok (s', m)
        → Step w (record w {
          idx =
              flush_async_end set now f
                (run_flush bs set mjson name now others seg_id w.store f.snap)
                w.idx;
          store = s';
          published = w.published ++ f.snap ∷ [];
        })
    flushed_now :
        (now : ℕ) (others : ℕ → bs.State → bs.State) (seg_id : Bytes) (w : World) (s' : bs.State)
        (m : Manifest)
        → w.idx.flushing ≡ none
        → (flush_now set now (run_flush bs set mjson name now others seg_id w.store) w.idx).1
          ≡ ok (some (s', m))
        → Step w (record w {
          idx = (flush_now set now (run_flush bs set mjson name now others seg_id w.store) w.idx).0;
          store = s';
          published = w.published ++ w.idx.memtable ∷ [];
        })
    reopened :
        (now : ℕ) (marshalled : Bytes) (w : World) (idx' : Index set) (s s' : bs.State)
        → Stopped w s []
        → open_index set json bs name now false w.idx.wal.file s marshalled ≡ ok (idx', s')
        → Step w (record w { idx = idx'; store = s' })

  -- all that can follow the first `Open` of an index
  pub data Reach : World → Type 0 where
    opened :
        (now : ℕ) (s s' : bs.State) (marshalled : Bytes) (idx : Index set)
        → open_index set json bs name now false [] s marshalled ≡ ok (idx, s')
        → Reach (record { idx = idx; store = s'; published = []; acked = [] })
    next : {w w' : World} → Reach w → Step w w' → Reach w'
