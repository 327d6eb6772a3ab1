-- ===== src/Search/Answer.antt =====
-- The answer of `Search` of pkg/search/search.go over the latest manifest.
use s3search.Base.{ℕ, ◌%◌, ◌^◌, ◌≡◌, refl, Bytes, List, length, take, drop, All, Option, some, ok}
use s3search.Store.Blob.{BlobStore}
use s3search.Manifest.Versions.{SegmentMeta, Manifest, ManifestJson, latest, active_segments}
use s3search.Search.{
  Result, value, Hit, Response, sort_hits, search_segments, search_manifest, search,
}
use s3search.Search.HitScores.{scores}
use s3search.Search.Window.{all_found, search_segments_lem}
use s3search.Search.Hits.{IsHitOf, search_segments-IsHitOf}

-- With a latest manifest, and while the sources of documents are read without an error, `Search` succeeds.
-- Its hits have the scores of the window of `size` from `from` on in the documents of all active segments
-- sorted at once, those of a segment with an error left out. Each hit is a document that an active segment
-- scored, with its source, and the total is the number of all these documents modulo 2^64.
pub search_lem :
    {E : Type 0} (scored_docs : SegmentMeta → Result E (List Hit))
    (source : SegmentMeta → ℕ → Result E (Option Bytes)) (bs : BlobStore) (json : ManifestJson)
    (index_name : Bytes) (s : bs.State) (from size : ℕ) (m : Manifest)
    → latest bs json index_name s ≡ ok (some m)
    → ((seg : SegmentMeta) (d : ℕ) → (src : Option Bytes) × (source seg d ≡ value src))
    → (r : Response) × (search scored_docs source bs json index_name s from size ≡ ok r)
      × (scores r.hits
          ≡ take size (drop from (scores (sort_hits (all_found scored_docs (active_segments m))))))
      × All (IsHitOf scored_docs source (active_segments m)) r.hits
      × (r.total_hits ≡ length (all_found scored_docs (active_segments m)) % 2 ^ 64)
unfolding search search_manifest
search_lem scored_docs source bs json index_name s from size m e source_ok =
    let segs = active_segments m in
    let (hits_are, total_is) = search_segments_lem scored_docs source source_ok from size segs in
    (
      search_segments scored_docs source from size segs,
      rw e refl,
      hits_are,
      search_segments-IsHitOf scored_docs source from size segs,
      total_is,
    )
