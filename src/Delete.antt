-- ===== src/Delete.antt =====
-- pkg/index/delete.go: the bitmaps of deleted documents, and DeleteByQuery. The reader of a segment file is an
-- argument, as in the evaluation of a query. Versions are below 2 ^ 63.
use s3search.Base.{
  ℕ, ◌+◌, ◌%◌, ◌^◌, Bytes, List, [], ◌∷◌, ◌++◌, length, false, ◌==◌, if◌then◌else◌, bytes_eq,
  insert, Option, none, some, Outcome, ok, err, panic, stuck, ◌>>=◌,
}
use s3search.Store.Blob.{BlobStore, StoreError, not_found, precondition_failed}
use s3search.Manifest.Key.{decimal}
use s3search.Manifest.Versions.{
  SegmentMeta, Manifest, ManifestJson, latest, active_segments, publish_transform,
}
use s3search.Manifest.Versions as Versions
use s3search.Compactor.Garbage.{segments_prefix, segment_key}
use s3search.Compactor.Mark.{bump_versions}
use s3search.Segment.Build.{Codecs}
use s3search.Segment.Hotcache.{Hotcache, decode_hotcache}
use s3search.Segment.Hotcache as Decoding
use s3search.Query.Bitmap.{Roaring}
use s3search.Query.Node.{Node}
use s3search.Query.Leaves.{Reader}
use s3search.Query.Exec.{search_doc_ids}
use s3search.Query.Exec as Exec
use s3search.Index.Flush.{seg_suffix, hotcache_suffix}
mod Collected
mod Written
mod Tests

-- ".del."
abbrev pub del_infix : Bytes
del_infix = 46 ∷ 100 ∷ 101 ∷ 108 ∷ 46 ∷ []

unfoldable pub del_key : Bytes → Bytes → ℕ → Bytes
unfolding segments_prefix decimal
del_key index_name seg_id version =
    segments_prefix index_name ++ (seg_id ++ (del_infix ++ decimal version))

pub data DeleteError (E : Type 0) : Type 0 where
  marshal_bitmap unmarshal_bitmap : DeleteError E
  get_bitmap put_bitmap get_hotcache : StoreError → DeleteError E
  bad_hotcache : Decoding.Error → DeleteError E
  no_reader : E → DeleteError E
  search_failed : Exec.Error E → DeleteError E
  no_manifest : Versions.Error → DeleteError E

-- an error in the words of another type
unfoldable pub wrapped {ℓ κ μ} :
    {E : Type ℓ} {F : Type κ} {A : Type μ} → (E → F) → Outcome E A → Outcome F A
wrapped f (ok a) = ok a
wrapped f (err e) = err (f e)
wrapped f panic = panic
wrapped f stuck = stuck

-- `segDel`
pub record SegDel (rb : Roaring) : Type 0 where
  pub seg_id : Bytes
  pub new_del_bm : rb.Bitmap
  pub new_version : ℕ

-- `buildUpdateMap`
unfoldable pub update_map : {rb : Roaring} → List (SegDel rb) → List (Bytes × ℕ) → List (Bytes × ℕ)
unfolding insert
update_map [] m = m
update_map (u ∷ us) m = update_map us (insert u.seg_id u.new_version m)

module _ (rb : Roaring) where
  -- `merged`: the documents deleted before and the new ones
  unfoldable pub merged : Option rb.Bitmap → rb.Bitmap → rb.Bitmap
  merged none new_matches = rb.or rb.new new_matches
  merged (some existing) new_matches = rb.or (rb.or rb.new existing) new_matches

  -- `GetCardinality`
  abbrev pub cardinality : rb.Bitmap → ℕ
  cardinality bm = length (rb.elements bm)

  -- the end of a round: no new match changes nothing
  unfoldable pub with_update :
      SegmentMeta → Option rb.Bitmap → rb.Bitmap → List (SegDel rb) × ℕ → List (SegDel rb) × ℕ
  unfolding merged
  with_update meta existing new_matches (updates, total) =
      if cardinality new_matches == 0 then (updates, total) else (
        updates
            ++ record {
              seg_id = meta.id;
              new_del_bm = merged existing new_matches;
              new_version = meta.del_version + 1;
            }
              ∷ [],
        (total + cardinality new_matches) % 2 ^ 64,
      )

module _ (rb : Roaring) (codecs : Codecs rb) (bs : BlobStore) {E : Type 0}
    (index_name : Bytes) where
  unfoldable pub write_del_bitmap :
      bs.State → Bytes → ℕ → rb.Bitmap → Outcome (DeleteError E) bs.State
  unfolding del_key wrapped
  write_del_bitmap s seg_id version bm = elim (codecs.marshal_binary bm) [
    | none ↦ err marshal_bitmap
    | some data_bytes ↦
        wrapped put_bitmap (bs.put s (del_key index_name seg_id version) data_bytes false)
  ]

  unfoldable pub parse_bitmap : Bytes → Outcome (DeleteError E) (Option rb.Bitmap)
  parse_bitmap data_bytes = elim (codecs.unmarshal_binary data_bytes) [
    | none ↦ err unmarshal_bitmap
    | some bm ↦ ok (some bm)
  ]

  -- a bitmap that is not there is no bitmap
  unfoldable pub found_bitmap :
      Outcome StoreError Bytes → Outcome (DeleteError E) (Option rb.Bitmap)
  unfolding parse_bitmap
  found_bitmap (ok data_bytes) = parse_bitmap data_bytes
  found_bitmap (err not_found) = ok none
  found_bitmap (err precondition_failed) = err (get_bitmap precondition_failed)
  found_bitmap panic = panic
  found_bitmap stuck = stuck

  unfoldable pub read_del_bitmap : bs.State → Bytes → ℕ → Outcome (DeleteError E) (Option rb.Bitmap)
  unfolding del_key found_bitmap
  read_del_bitmap s seg_id version =
      if version == 0 then ok none else found_bitmap (bs.get s (del_key index_name seg_id version))

  -- the loop that writes the bitmaps
  unfoldable pub write_all : bs.State → List (SegDel rb) → Outcome (DeleteError E) bs.State
  unfolding write_del_bitmap
  write_all s [] = ok s
  write_all s (u ∷ us) = do
    s' ← write_del_bitmap s u.seg_id u.new_version u.new_del_bm
    write_all s' us

  module _ (reader : bs.State → Bytes → Outcome E (Reader rb E))
      (tokenize : Bytes → List Bytes) where
    -- the documents of a segment that match and are not deleted yet
    unfoldable pub new_matches_of :
        bs.State → Node → SegmentMeta → Option rb.Bitmap → Outcome (DeleteError E) rb.Bitmap
    unfolding wrapped segment_key search_doc_ids decode_hotcache
    new_matches_of s q meta existing = do
      hc_data ← wrapped get_hotcache (bs.get s (segment_key index_name meta.id hotcache_suffix))
      hc ← wrapped bad_hotcache (decode_hotcache codecs.load_fst hc_data)
      r ← wrapped no_reader (reader s (segment_key index_name meta.id seg_suffix))
      wrapped search_failed (search_doc_ids rb r hc tokenize q existing)

    -- the loop over the active segments; an error comes with the number of matches so far
    unfoldable pub collect_deletes :
        bs.State
        → Node
        → List SegmentMeta
        → List (SegDel rb) × ℕ
        → Outcome (ℕ × DeleteError E) (List (SegDel rb) × ℕ)
    unfolding wrapped read_del_bitmap new_matches_of with_update
    collect_deletes s q [] acc = ok acc
    collect_deletes s q (meta ∷ metas) acc = do
      existing ← wrapped (λ e. (acc.1, e)) (read_del_bitmap s meta.id meta.del_version)
      new_matches ← wrapped (λ e. (acc.1, e)) (new_matches_of s q meta existing)
      collect_deletes s q metas (with_update rb meta existing new_matches acc)

    module _ (json : ManifestJson) (now : ℕ) (others : ℕ → bs.State → bs.State) where
      -- The bitmaps are written before the manifest is published.
      unfoldable pub apply_deletes :
          bs.State → List (SegDel rb) × ℕ → Outcome (ℕ × DeleteError E) (bs.State × ℕ)
      unfolding wrapped write_all update_map bump_versions
      apply_deletes s ([], total) = ok (s, 0)
      apply_deletes s (u ∷ us, total) = do
        s' ← wrapped (λ e. (total, e)) (write_all s (u ∷ us))
        published ←
            wrapped (λ e. (total, no_manifest e))
              (publish_transform bs json index_name now others 5 s'
                (bump_versions (update_map (u ∷ us) [])))
        ok (published.0, total)

      unfoldable pub delete_in :
          bs.State → Node → Option Manifest → Outcome (ℕ × DeleteError E) (bs.State × ℕ)
      unfolding collect_deletes apply_deletes
      delete_in s q none = ok (s, 0)
      delete_in s q (some m) = collect_deletes s q (active_segments m) ([], 0) >>= apply_deletes s

      unfoldable pub delete_by_query : bs.State → Node → Outcome (ℕ × DeleteError E) (bs.State × ℕ)
      unfolding wrapped delete_in
      delete_by_query s q =
          wrapped (λ e. (0, no_manifest e)) (latest bs json index_name s) >>= delete_in s q
