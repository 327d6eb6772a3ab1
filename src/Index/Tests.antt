-- ===== src/Index/Tests.antt =====
-- The theorems on pkg/index/index.go at an index of one text field, over the store in memory.
use Prim.{tt}
use s3search.Base.{
  ℕ, ◌≡◌, refl, arith, true, length, length-append, append-nil, Bytes, List, [], ◌∷◌, ◌++◌, none,
  some, Outcome, ok, err, lookup, insert, bytes_beq, sort_strings, bytes_leb, last?, has_prefix,
}
use s3search.Wal.Log.{header}
use s3search.Store.Mem.{MemStore, new_mem_store, put, list}
use s3search.Store.Laws.{mem_blob_store}
use s3search.Manifest.Key.{manifest_prefix, manifest_key}
use s3search.Manifest.Versions.{Manifest, latest, or_retry, publish}
use s3search.Manifest.Plain.{plain_manifests, index, nobody, new_store-Refines, nobody-Interference}
use s3search.Index.Ops.{Index, Flight, flush_async_end, flush_now, index_add}
use s3search.Index.Memtable.{Memtable, new_memtable, add_value, memtable_add, memtable_build}
use s3search.Index.Flush.{FlushError, upload, schema_suffix, meta_of, run_flush}
use s3search.Index.FlushedFiles.{HasFiles, run_flush-Published}
use s3search.Index.FailedFlush.{lost_after_failed_flush}
use s3search.Index.Kept.{add_all, Built, Kept}
use s3search.Segment.Build.{BuildResult}
use s3search.Wal.Contents.{Holds, frame}
use s3search.Wal.Frames.{frames, length-frame}
use s3search.Store.Blob.{not_found}
use s3search.Manifest.History.{Refines}
use s3search.Manifest.Atomic.{Published}
use s3search.Manifest.Others.{Refines-put_other}
use s3search.Index.Runs.{World, added}
use s3search.Index.Durable.{Durable}
use s3search.Index.Plain.{plain_json, settings, eager, empty_index}

-- "a b"
abbrev doc : Bytes
doc = 97 ∷ 32 ∷ 98 ∷ []

-- the schema as JSON, "{}"
abbrev schema_json : Bytes
schema_json = 123 ∷ 125 ∷ []

abbrev with_schema : MemStore
with_schema = record {
  objects =
      (index ++ 47 ∷ 115 ∷ 99 ∷ 104 ∷ 101 ∷ 109 ∷ 97 ∷ 46 ∷ 106 ∷ 115 ∷ 111 ∷ 110 ∷ [], schema_json)
      ∷ [];
  range_log = [];
}

-- the memtable with the document
abbrev one_doc : Memtable settings
one_doc = add_value settings (new_memtable settings) doc doc

abbrev first_world : World settings plain_json mem_blob_store plain_manifests index eager
first_world = record { idx = empty_index; store = with_schema; published = []; acked = [] }

abbrev second_world : World settings plain_json mem_blob_store plain_manifests index eager
second_world = record first_world {
  idx = (index_add settings eager plain_json 5 empty_index doc).0;
  acked = [] ++ doc ∷ [];
}

-- what a flush of the first document gives
abbrev first_flush : Outcome FlushError (MemStore × Manifest)
first_flush =
    run_flush mem_blob_store settings plain_manifests index 9 nobody (50 ∷ []) with_schema one_doc

abbrev store_of : Outcome FlushError (MemStore × Manifest) → MemStore
store_of (ok (s, m)) = s
store_of _ = new_mem_store

abbrev manifest_of : Outcome FlushError (MemStore × Manifest) → Manifest
manifest_of (ok (s, m)) = m
manifest_of _ = record { version = 0; index_name = []; segments = []; created_at = 0 }

flushes : first_flush ≡ ok (store_of first_flush, manifest_of first_flush)
unfolding run_flush lookup add_value new_memtable bytes_beq insert sort_strings bytes_leb put latest
    last? list has_prefix manifest_prefix or_retry publish manifest_key
flushes = refl

-- the snapshot with the one document, whose frame ends at byte 19
abbrev flight : Flight settings
flight = record { snap = one_doc; off = 19 }

abbrev third_world : World settings plain_json mem_blob_store plain_manifests index eager
third_world = record second_world {
  idx = flush_async_end settings 9 flight first_flush second_world.idx;
  store = store_of first_flush;
  published = [] ++ one_doc ∷ [];
}

with_schema-Refines : Refines mem_blob_store plain_manifests index with_schema []
unfolding has_prefix put lookup insert manifest_prefix
with_schema-Refines =
    Refines-put_other mem_blob_store plain_manifests index new_mem_store with_schema []
      (index ++ schema_suffix) schema_json true refl refl new_store-Refines

run_flush-Published_example :
    (result : BuildResult) × (memtable_build settings one_doc ≡ ok result)
    × HasFiles mem_blob_store plain_manifests settings index (store_of first_flush) (50 ∷ []) result
    × Published mem_blob_store plain_manifests index
        (λ segs. segs ++ meta_of (50 ∷ []) 9 result ∷ [])
        []
        (store_of first_flush)
        (manifest_of first_flush)
run_flush-Published_example =
    run_flush-Published mem_blob_store plain_manifests settings index 0 9 nobody (50 ∷ [])
      with_schema (store_of first_flush) [] one_doc (manifest_of first_flush) nobody-Interference
      (λ n t. (refl, refl)) with_schema-Refines (omega arith) flushes

one_doc-Built : Built settings plain_json one_doc (doc ∷ [])
unfolding add_all memtable_add
one_doc-Built = record { raws = doc ∷ []; compacted = (refl, tt); added = refl }

-- a document in flight, and one in the memtable
abbrev busy_index : Index settings
busy_index = record {
  memtable = one_doc;
  wal = record {
    file = header ++ frames (doc ∷ doc ∷ []);
    pos = length (header ++ frames (doc ∷ doc ∷ []));
    buf = [];
  };
  last_flush = 0;
  flushing = some flight;
  flush_err = none;
}

busy_index-Kept : Kept settings plain_json busy_index (doc ∷ doc ∷ [])
busy_index-Kept = record {
  flying = doc ∷ [];
  live = doc ∷ [];
  split = refl;
  in_flight = (one_doc-Built, omega (arith, length-append (frame doc) [], length-frame doc));
  built = one_doc-Built;
  in_log = record { logged = append-nil (header ++ frames (doc ∷ doc ∷ [])); at_end = refl };
  fits = (omega arith, (omega arith, tt));
  no_err = refl;
}

-- the index after the failure was told
abbrev told_index : Index settings
told_index =
    (index_add settings eager plain_json 12
      (flush_async_end settings {R = ℕ} 11 flight (err (upload not_found)) busy_index) doc).0

abbrev publishes : Memtable settings → Outcome FlushError ℕ
publishes snap = ok 7

told_index_flushes : (flush_now settings 13 publishes told_index).1 ≡ ok (some 7)
unfolding flush_now index_add flush_async_end
told_index_flushes = refl

lost_after_failed_flush_example :
    (lost : List Bytes) × (live : List Bytes) × (doc ∷ doc ∷ [] ≡ lost ++ live)
    × Built settings plain_json one_doc lost
    × Built settings plain_json told_index.memtable live
    × ((flush_now settings 13 publishes told_index).0.memtable ≡ new_memtable settings)
    × Holds (flush_now settings 13 publishes told_index).0.wal (frames [])
lost_after_failed_flush_example =
    lost_after_failed_flush settings plain_json eager 11 12 13 busy_index (doc ∷ doc ∷ []) flight
      (upload not_found) doc publishes 7 busy_index-Kept refl told_index_flushes
