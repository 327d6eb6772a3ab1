-- ===== src/Search/Tests.antt =====
-- The theorem on pkg/search/search.go at an index of three segments, of which one cannot be read.
use s3search.Base.{
  ℕ, ◌≡◌, refl, true, Bytes, List, [], ◌∷◌, All, Option, none, some, ok, last?, lookup, has_prefix,
  sort_strings, bytes_leb, bytes_beq, if◌then◌else◌,
}
use s3search.Store.Blob.{StoreError, not_found}
use s3search.Store.Mem.{MemStore}
use s3search.Store.Laws.{mem_blob_store}
use s3search.Manifest.Key.{manifest_key}
use s3search.Manifest.Versions.{SegmentMeta, Manifest, active_of, active_segments, latest}
use s3search.Manifest.Plain.{plain_manifests, index, one_segment}
use s3search.Search.{Result, value, error, Hit, Response, insert_hit, sort_hits, search}
use s3search.Search.HitScores.{scores}
use s3search.Search.Hits.{IsHitOf}
use s3search.Search.Answer.{search_lem}

abbrev three_segments : Manifest
three_segments = record {
  version = 1;
  index_name = index;
  segments =
      one_segment
      ∷ record one_segment { id = 50 ∷ [] }
      ∷ record one_segment { id = 51 ∷ [] }
      ∷ record one_segment { id = 52 ∷ []; deleted = true }
      ∷ [];
  created_at = 8;
}

abbrev small_store : MemStore
small_store = record {
  objects = (manifest_key index 1, plain_manifests.marshal three_segments) ∷ [];
  range_log = [];
}

small_store-latest :
    latest mem_blob_store plain_manifests index small_store ≡ ok (some three_segments)
unfolding latest s3search.Manifest.Versions.load s3search.Manifest.Versions.parse_manifest
    s3search.Manifest.Versions.from_store s3search.Store.Mem.get s3search.Store.Mem.list lookup
    sort_strings bytes_leb bytes_beq last? has_prefix manifest_key s3search.Manifest.Key.pad_six
    s3search.Manifest.Key.decimal s3search.Manifest.Key.manifest_prefix
small_store-latest = refl

abbrev hit : ℕ → ℕ → Hit
hit doc_id score = record { doc_id = doc_id; score = score; source = none }

-- what the first and the third segment hold; the second has an error
abbrev scored_docs : SegmentMeta → Result StoreError (List Hit)
scored_docs seg =
    if bytes_beq seg.id (49 ∷ [])
    then value (hit 0 5 ∷ hit 1 9 ∷ [])
    else if bytes_beq seg.id (51 ∷ [])
    then value (hit 0 7 ∷ hit 3 2 ∷ [])
    else error not_found

abbrev source : SegmentMeta → ℕ → Result StoreError (Option Bytes)
source seg d = value (some (d ∷ []))

search_lem_example :
    (r : Response) × (search scored_docs source mem_blob_store plain_manifests index small_store 1 2
      ≡ ok r)
    × (scores r.hits ≡ 7 ∷ 5 ∷ [])
    × All (IsHitOf scored_docs source (active_segments three_segments)) r.hits
    × (r.total_hits ≡ 4)
unfolding active_segments active_of sort_hits insert_hit bytes_beq
search_lem_example =
    search_lem scored_docs source mem_blob_store plain_manifests index small_store 1 2
      three_segments small_store-latest (λ seg d. (some (d ∷ []), refl))
