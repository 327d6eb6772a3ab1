-- ===== src/Manifest/Versions.antt =====
-- The types and the operations of pkg/index/manifest.go. A manifest is written as JSON, which is a
-- parameter with the law that it can be read back; the clock is an argument.
use s3search.Base.{ℕ, zero, suc, ◌+◌, ◌*◌, ◌%◌, ◌^◌, ◌≡◌, Bool, true, Bytes, List, [], ◌∷◌, ◌++◌}
use s3search.Base.{
  if◌then◌else◌, Option, none, some, Outcome, ok, err, panic, stuck, ◌>>=◌, sort_strings, last?,
}
use s3search.Store.Blob.{StoreError, not_found, precondition_failed, BlobStore}
use s3search.Manifest.Key.{manifest_prefix, manifest_key}

pub record SegmentMeta : Type 0 where
  pub id : Bytes
  pub doc_count : ℕ
  pub bytes : ℕ
  pub min_ts : ℕ
  pub max_ts : ℕ
  pub created_at : ℕ
  pub del_version : ℕ
  pub deleted : Bool

pub record Manifest : Type 0 where
  pub version : ℕ
  pub index_name : Bytes
  pub segments : List SegmentMeta
  pub created_at : ℕ

-- The segments that are not marked deleted.
unfoldable pub active_of : List SegmentMeta → List SegmentMeta
active_of [] = []
active_of (m ∷ ms) = let rest = active_of ms in if m.deleted then rest else m ∷ rest

unfoldable pub active_segments : Manifest → List SegmentMeta
unfolding active_of
active_segments m = active_of m.segments

-- `json.Marshal` and `json.Unmarshal` at the type Manifest
pub record ManifestJson : Type 0 where
  pub marshal : Manifest → Bytes
  pub unmarshal : Bytes → Option Manifest
  pub unmarshal-marshal : (m : Manifest) → unmarshal (marshal m) ≡ some m

-- An error of the store, a manifest that is no JSON, `ErrManifestConflict`, and too many conflicts
pub data Error : Type 0 where
  store : StoreError → Error
  parse : Error
  conflict : ℕ → Error
  exceeded : Error

unfoldable pub from_store {ℓ} : {A : Type ℓ} → Outcome StoreError A → Outcome Error A
from_store (ok a) = ok a
from_store (err e) = err (store e)
from_store panic = panic
from_store stuck = stuck

-- A loop of attempts goes on after a conflict, and ends with any other outcome.
unfoldable pub or_retry {ℓ} : {A : Type ℓ} → Outcome Error A → Outcome Error A → Outcome Error A
or_retry (ok r) again = ok r
or_retry (err (store e)) again = err (store e)
or_retry (err parse) again = err parse
or_retry (err (conflict v)) again = again
or_retry (err exceeded) again = err exceeded
or_retry panic again = panic
or_retry stuck again = stuck

unfoldable pub next_version : Option Manifest → ℕ
next_version none = 1
next_version (some m) = (m.version + 1) % 2 ^ 64

unfoldable pub segments_of : Option Manifest → List SegmentMeta
segments_of none = []
segments_of (some m) = m.segments

module _ (bs : BlobStore) (json : ManifestJson) (index_name : Bytes) where
  unfoldable pub parse_manifest : Bytes → Outcome Error (Option Manifest)
  parse_manifest bytes = elim (json.unmarshal bytes) [ none ↦ err parse | some m ↦ ok (some m) ]

  unfoldable pub load : bs.State → Option Bytes → Outcome Error (Option Manifest)
  unfolding parse_manifest from_store
  load s none = ok none
  load s (some latest_key) = from_store (bs.get s latest_key) >>= parse_manifest

  -- `keys[len(keys)-1]` of the sorted keys; no key is no manifest
  unfoldable pub latest : bs.State → Outcome Error (Option Manifest)
  unfolding load
  latest s = load s (last? (sort_strings (bs.list s (manifest_prefix index_name))))

  unfoldable pub make_manifest : ℕ → Option Manifest → List SegmentMeta → Manifest
  make_manifest now current segments = record {
    version = next_version current;
    index_name = index_name;
    segments = segments;
    created_at = now;
  }

  -- the error that a failed put gives
  unfoldable pub put_result :
      Manifest → Outcome StoreError bs.State → Outcome Error (bs.State × Manifest)
  put_result m (ok s) = ok (s, m)
  put_result m (err precondition_failed) = err (conflict m.version)
  put_result m (err not_found) = err (store not_found)
  put_result m panic = panic
  put_result m stuck = stuck

  unfoldable pub publish_next :
      ℕ → bs.State → Option Manifest → List SegmentMeta → Outcome Error (bs.State × Manifest)
  unfolding make_manifest put_result
  publish_next now s current segments =
      let m = make_manifest now current segments in
      put_result m (bs.put s (manifest_key index_name m.version) (json.marshal m) true)

  unfoldable pub publish :
      ℕ → bs.State → Option Manifest → List SegmentMeta → Outcome Error (bs.State × Manifest)
  unfolding publish_next
  publish now s current new_segments =
      publish_next now s current (segments_of current ++ new_segments)

  -- The loop of `PublishTransform`, where `fn` makes the new list of segments of the current one.
  -- `others` stands for what other writers do to the store before the read and the put of an attempt.
  unfoldable pub publish_transform :
      ℕ
      → (ℕ → bs.State → bs.State)
      → ℕ
      → bs.State
      → (List SegmentMeta → List SegmentMeta)
      → Outcome Error (bs.State × Manifest)
  publish_transform now others zero s fn = err exceeded
  publish_transform now others (suc retries) s fn = do
    let before = others (2 * retries + 1) s
    current ← latest before
    let s' = others (2 * retries) before
    let again = publish_transform now others retries s' fn
    or_retry (publish_next now s' current (fn (segments_of current))) again

  -- `PublishWithRetry` is the same loop, with `Publish` for the last step.
  unfoldable pub publish_with_retry :
      ℕ
      → (ℕ → bs.State → bs.State)
      → ℕ
      → bs.State
      → SegmentMeta
      → Outcome Error (bs.State × Manifest)
  publish_with_retry now others zero s new_seg = err exceeded
  publish_with_retry now others (suc retries) s new_seg = do
    let before = others (2 * retries + 1) s
    current ← latest before
    let s' = others (2 * retries) before
    let again = publish_with_retry now others retries s' new_seg
    or_retry (publish now s' current (new_seg ∷ [])) again
