-- ===== src/Search.antt =====
-- `Search` of pkg/search/search.go, and `SegmentSearch` of pkg/query/exec.go from the scored documents on. A
-- float64 score that is not negative stands as its bits, which have its order. `sort.Slice` may put hits of
-- one score in any order, and here it keeps theirs.
use s3search.Base.{
  ℕ, ◌+◌, ◌%◌, ◌^◌, Bytes, List, [], ◌∷◌, ◌++◌, length, map, take, drop, ltb, leb, if◌then◌else◌,
}
use s3search.Base.{Option, none, some, Outcome, ok, ◌>>=◌}
use s3search.Store.Blob.{BlobStore}
use s3search.Manifest.Versions.{SegmentMeta, Manifest, ManifestJson, latest, active_segments}
use s3search.Manifest.Versions as Versions
mod Scores
mod HitScores
mod Window
mod Hits
mod Answer
mod Tests

-- what a segment's goroutine leaves: a value or an error
pub data Result (E : Type 0) (A : Type 0) : Type 0 where
  value : A → Result E A
  error : E → Result E A

abbrev pub and_then : {E A B : Type 0} → Result E A → (A → Result E B) → Result E B
and_then (value a) next = next a
and_then (error e) next = error e

pub record Hit : Type 0 where
  pub doc_id : ℕ
  pub score : ℕ
  pub source : Option Bytes

pub record PartialResult : Type 0 where
  pub hits : List Hit
  pub total_hits : ℕ

pub record Response : Type 0 where
  pub total_hits : ℕ
  pub from : ℕ
  pub size : ℕ
  pub hits : List Hit

-- what the results are merged into
abbrev pub no_results : PartialResult
no_results = record { hits = []; total_hits = 0 }

abbrev pub empty_response : Response
empty_response = record { total_hits = 0; from = 0; size = 0; hits = [] }

unfoldable pub insert_hit : Hit → List Hit → List Hit
insert_hit h [] = h ∷ []
insert_hit h (g ∷ gs) =
    let rest = insert_hit h gs in if leb g.score h.score then h ∷ g ∷ gs else g ∷ rest

-- `sort.Slice` by falling score
unfoldable pub sort_hits : List Hit → List Hit
unfolding insert_hit
sort_hits [] = []
sort_hits (h ∷ hs) = insert_hit h (sort_hits hs)

-- `hits[:n]` where there are more
unfoldable pub cut : ℕ → List Hit → List Hit
cut n hits = if ltb n (length hits) then take n hits else hits

-- `hits[from:]`, with `from` at the end at most
unfoldable pub skip : ℕ → List Hit → List Hit
skip from hits = drop (if ltb (length hits) from then length hits else from) hits

-- A document without an entry keeps its hit as it is.
unfoldable pub with_source : Hit → Option Bytes → Hit
with_source h none = h
with_source h (some src) = record h { source = some src }

-- the global window over the sorted hits
unfoldable pub respond : ℕ → ℕ → PartialResult → Response
unfolding sort_hits cut skip
respond from size merged =
    let window = cut size (skip from (sort_hits merged.hits)) in
    record { total_hits = merged.total_hits; from = from; size = length window; hits = window }

module _ {E : Type 0} where
  -- the loop over the hits, which reads the source of each
  unfoldable pub with_sources : (ℕ → Result E (Option Bytes)) → List Hit → Result E (List Hit)
  unfolding with_source
  with_sources source [] = value []
  with_sources source (h ∷ hs) =
      and_then (source h.doc_id)
        (λ src. and_then (with_sources source hs) (λ rest. value (with_source h src ∷ rest)))

  -- `SegmentSearch` of the documents that `execNode` scored
  unfoldable pub segment_search :
      ℕ → (ℕ → Result E (Option Bytes)) → List Hit → Result E PartialResult
  unfolding sort_hits cut with_sources
  segment_search top_k source scored_docs =
      and_then (with_sources source (cut top_k (sort_hits scored_docs)))
        (λ hits. value (record { hits = hits; total_hits = length scored_docs % 2 ^ 64 }))

  -- the loop over the results of the segments, which leaves out those with an error
  unfoldable pub merge_results : List (Result E PartialResult) → PartialResult → PartialResult
  merge_results [] acc = acc
  merge_results (value r ∷ rs) acc =
      merge_results rs (record {
        hits = acc.hits ++ r.hits;
        total_hits = (acc.total_hits + r.total_hits) % 2 ^ 64;
      })
  merge_results (error e ∷ rs) acc = merge_results rs acc

  -- What a segment gives is an argument: the documents that its query scores, and their sources.
  module _ (scored_docs : SegmentMeta → Result E (List Hit))
      (source : SegmentMeta → ℕ → Result E (Option Bytes)) where
    unfoldable pub search_segment : ℕ → SegmentMeta → Result E PartialResult
    unfolding segment_search
    search_segment top_k meta = and_then (scored_docs meta) (segment_search top_k (source meta))

    unfoldable pub search_segments : ℕ → ℕ → List SegmentMeta → Response
    unfolding search_segment merge_results respond
    search_segments from size [] = empty_response
    search_segments from size (seg ∷ segs) =
        respond from size
          (merge_results (map (search_segment (from + size)) (seg ∷ segs)) no_results)

    unfoldable pub search_manifest : ℕ → ℕ → Option Manifest → Response
    unfolding search_segments
    search_manifest from size none = empty_response
    search_manifest from size (some m) = search_segments from size (active_segments m)

    unfoldable pub search :
        (bs : BlobStore) → ManifestJson → Bytes → bs.State → ℕ → ℕ → Outcome Versions.Error Response
    unfolding search_manifest
    search bs json index_name s from size =
        latest bs json index_name s >>= λ manifest. ok (search_manifest from size manifest)
