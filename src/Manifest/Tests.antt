-- ===== src/Manifest/Tests.antt =====
-- The theorems on pkg/index/manifest.go at the store in memory.
use s3search.Base.{◌≡◌, arith, true, false, [], ◌∷◌}
use s3search.Base.{◌++◌, none, ok}
use s3search.Base.{bytes_leb, last?}
use s3search.Store.Mem.{MemStore, new_mem_store}
use s3search.Store.Laws.{mem_blob_store}
use s3search.Manifest.Key.{manifest_key}
use s3search.Manifest.KeyOrder.{manifest_key_order}
use s3search.Manifest.Versions.{Manifest, latest}
use s3search.Manifest.Versions.{publish_transform, publish_with_retry}
use s3search.Manifest.History.{latest-last}
use s3search.Manifest.Atomic.{
  Settled, Published, publish_transform_atomic, publish_with_retry_atomic,
}
use s3search.Manifest.Atomic.{publish_transform_undisturbed}
use s3search.Manifest.Plain.{
  plain_manifests, index, one_segment, nobody, new_store-Refines, nobody-Interference,
}

manifest_key_order_example :
    (bytes_leb (manifest_key index 9) (manifest_key index 10) ≡ true)
    × (bytes_leb (manifest_key index 10) (manifest_key index 9) ≡ false)
manifest_key_order_example = manifest_key_order index 9 10 (omega arith) (omega arith)

publish_with_retry_atomic_example :
    Settled mem_blob_store plain_manifests index
      (λ segs. segs ++ one_segment ∷ [])
      []
      (publish_with_retry mem_blob_store plain_manifests index 8 nobody 5 new_mem_store one_segment)
publish_with_retry_atomic_example =
    publish_with_retry_atomic mem_blob_store plain_manifests index 0 8 nobody 5 new_mem_store
      one_segment [] nobody-Interference new_store-Refines (omega arith)

publish_transform_atomic_example :
    Settled mem_blob_store plain_manifests index
      (λ segs. one_segment ∷ segs)
      []
      (publish_transform mem_blob_store plain_manifests index 8 nobody 3 new_mem_store
        (λ segs. one_segment ∷ segs))
publish_transform_atomic_example =
    publish_transform_atomic mem_blob_store plain_manifests index 0 8 nobody 3 new_mem_store
      (λ segs. one_segment ∷ segs) [] nobody-Interference new_store-Refines (omega arith)

publish_transform_undisturbed_example :
    (s' : MemStore) × (m : Manifest) × (publish_transform mem_blob_store plain_manifests index 8
        nobody 1 new_mem_store
        (λ segs. one_segment ∷ segs)
      ≡ ok (s', m))
    × Published mem_blob_store plain_manifests index (λ segs. one_segment ∷ segs) [] s' m
publish_transform_undisturbed_example =
    publish_transform_undisturbed mem_blob_store plain_manifests index 8 nobody 0 new_mem_store
      (λ segs. one_segment ∷ segs) [] [] new_store-Refines new_store-Refines (omega arith)

latest-last_example : latest mem_blob_store plain_manifests index new_mem_store ≡ ok none
unfolding last?
latest-last_example =
    latest-last mem_blob_store plain_manifests index new_mem_store [] new_store-Refines
      (omega arith)
