-- ===== src/Index/Flush.antt =====
-- `runFlush` and `persistSchema` of pkg/index/index.go, over the store. The two uploads write different keys,
-- so their order does not count; the clock and the new segment's id are arguments.
use s3search.Base.{ℕ, Bytes, ◌∷◌, [], ◌++◌, length, false, true}
use s3search.Base.{Outcome, ok, err, panic, stuck, ◌>>=◌}
use s3search.Store.Blob.{StoreError, not_found, precondition_failed, BlobStore}
use s3search.Manifest.Versions as Versions
use s3search.Manifest.Versions.{SegmentMeta, Manifest, ManifestJson, publish_with_retry}
use s3search.Compactor.Garbage.{segment_key}
use s3search.Segment.Build.{BuildError, BuildResult}
use s3search.Index.Memtable.{Settings, Memtable, memtable_build}

-- ".seg" and ".hotcache"
abbrev pub seg_suffix : Bytes
seg_suffix = 46 ∷ 115 ∷ 101 ∷ 103 ∷ []

abbrev pub hotcache_suffix : Bytes
hotcache_suffix = 46 ∷ 104 ∷ 111 ∷ 116 ∷ 99 ∷ 97 ∷ 99 ∷ 104 ∷ 101 ∷ []

pub data FlushError : Type 0 where
  build_segment : BuildError → FlushError
  upload : StoreError → FlushError
  publish_manifest : Versions.Error → FlushError

-- an error with what was being done
unfoldable pub wrap {ℓ κ μ} :
    {E : Type ℓ} {F : Type κ} {A : Type μ} → (E → F) → Outcome E A → Outcome F A
wrap f (ok a) = ok a
wrap f (err e) = err (f e)
wrap f panic = panic
wrap f stuck = stuck

-- "/schema.json"
abbrev pub schema_suffix : Bytes
schema_suffix = 47 ∷ 115 ∷ 99 ∷ 104 ∷ 101 ∷ 109 ∷ 97 ∷ 46 ∷ 106 ∷ 115 ∷ 111 ∷ 110 ∷ []

-- what is published of a segment
unfoldable pub meta_of : Bytes → ℕ → BuildResult → SegmentMeta
meta_of seg_id now result = record {
  id = seg_id;
  doc_count = result.doc_count;
  bytes = length result.seg_bytes;
  min_ts = 0;
  max_ts = 0;
  created_at = now;
  del_version = 0;
  deleted = false;
}

module _ (bs : BlobStore) where
  -- a schema that is there already is kept
  unfoldable pub unless_there : bs.State → Outcome StoreError bs.State → Outcome FlushError bs.State
  unless_there s (ok s') = ok s'
  unless_there s (err precondition_failed) = ok s
  unless_there s (err not_found) = err (upload not_found)
  unless_there s panic = panic
  unless_there s stuck = stuck

  unfoldable pub persist_schema : Bytes → bs.State → Bytes → Outcome FlushError bs.State
  unfolding unless_there
  persist_schema name s marshalled =
      unless_there s (bs.put s (name ++ schema_suffix) marshalled true)

  unfoldable pub upload_files : Bytes → Bytes → bs.State → BuildResult → Outcome FlushError bs.State
  unfolding wrap segment_key
  upload_files name seg_id s result =
      wrap upload (bs.put s (segment_key name seg_id seg_suffix) result.seg_bytes false) >>= λ s1.
      wrap upload (bs.put s1 (segment_key name seg_id hotcache_suffix) result.hotcache_bytes false)

  module _ (set : Settings) (json : ManifestJson) (name : Bytes) where
    -- `others` stands for what other writers do to the store between the steps of the publication.
    unfoldable pub run_flush :
        ℕ
        → (ℕ → bs.State → bs.State)
        → Bytes
        → bs.State
        → Memtable set
        → Outcome FlushError (bs.State × Manifest)
    unfolding memtable_build upload_files meta_of publish_with_retry
    run_flush now others seg_id s snap = do
      result ← wrap build_segment (memtable_build set snap)
      s' ← upload_files name seg_id s result
      wrap publish_manifest
          (publish_with_retry bs json name now others 5 s' (meta_of seg_id now result))
