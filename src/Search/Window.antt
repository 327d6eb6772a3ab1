-- ===== src/Search/Window.antt =====
-- The window of a search of pkg/search/search.go, against the documents of all segments sorted at once.
use s3search.Base.{
  ℕ, ◌+◌, ◌%◌, ◌^◌, ◌<◌, ◌≡◌, refl, sym, ap, ◌∙◌, arith, Bytes, List, [], ◌∷◌, ◌++◌, map, length,
  length-append, take, take-all, append-nil, append_assoc, drop, drop-all, Option,
}
use s3search.Manifest.Versions.{SegmentMeta}
use s3search.Search.{
  Result, value, error, and_then, Hit, PartialResult, no_results, sort_hits, cut, with_source,
  with_sources, segment_search, merge_results, respond, search_segment, search_segments,
}
use s3search.Search.Scores.{insert_all, take-insert_all_best}
use s3search.Search.HitScores.{
  scores, scores-append, scores-take, take-drop, scores-sort_hits, cut-take, scores-respond,
  scores-with_source,
}

-- the documents of a segment, none where it has an error
abbrev pub found : {E : Type 0} → Result E (List Hit) → List Hit
found (value docs) = docs
found (error e) = []

abbrev pub all_found :
    {E : Type 0} → (SegmentMeta → Result E (List Hit)) → List SegmentMeta → List Hit
all_found scored_docs [] = []
all_found scored_docs (seg ∷ segs) = found (scored_docs seg) ++ all_found scored_docs segs

module _ {E : Type 0} where
  module _ (source : ℕ → Result E (Option Bytes))
      (source_ok : (d : ℕ) → (src : Option Bytes) × (source d ≡ value src)) where
    with_sources-scores :
        (hs : List Hit)
        → (gs : List Hit) × (with_sources source hs ≡ value gs) × (scores gs ≡ scores hs)
    unfolding with_sources
    with_sources-scores [] = ([], refl, refl)
    with_sources-scores (h ∷ hs) =
        let (src, e) = source_ok h.doc_id in
        let (gs, e', same) = with_sources-scores hs in
        (
          with_source h src ∷ gs,
          rw (e, e') refl,
          ap (λ score. score ∷ scores gs) (scores-with_source h src) ∙ ap (◌∷◌ h.score) same,
        )

    -- A segment gives its best scores, and counts all of its documents.
    segment_search_lem :
        (k : ℕ) (docs : List Hit)
        → (r : PartialResult) × (segment_search k source docs ≡ value r)
          × (scores r.hits ≡ take k (insert_all (scores docs) []))
          × (r.total_hits ≡ length docs % 2 ^ 64)
    unfolding segment_search
    segment_search_lem k docs =
        let (gs, e, same) = with_sources-scores (cut k (sort_hits docs)) in
        (
          record { hits = gs; total_hits = length docs % 2 ^ 64 },
          rw e refl,
          same
              ∙ ap scores (cut-take k (sort_hits docs))
              ∙ scores-take k (sort_hits docs)
              ∙ ap (take k) (scores-sort_hits docs),
          refl,
        )

  module _ (scored_docs : SegmentMeta → Result E (List Hit))
      (source : SegmentMeta → ℕ → Result E (Option Bytes))
      (source_ok : (seg : SegmentMeta) (d : ℕ)
        → (src : Option Bytes) × (source seg d ≡ value src)) where
    -- the best scores of each segment, one segment after the other
    abbrev bests : ℕ → List SegmentMeta → List ℕ
    bests k [] = []
    bests k (seg ∷ segs) = take k (insert_all (scores (found (scored_docs seg))) []) ++ bests k segs

    take-bests :
        (k : ℕ) (segs : List SegmentMeta)
        → take k (insert_all (bests k segs) [])
          ≡ take k (insert_all (scores (all_found scored_docs segs)) [])
    take-bests k [] = refl
    take-bests k (seg ∷ segs) =
        let docs = found (scored_docs seg) in
        let rest = all_found scored_docs segs in
        take-insert_all_best k (scores docs) (bests k segs) (scores rest) (take-bests k segs)
        ∙ ap (λ l. take k (insert_all l [])) (sym (scores-append docs rest))

    -- The results with one segment more.
    abbrev Adds : ℕ → List Hit → PartialResult → PartialResult → Type 0
    Adds k docs acc next =
        (scores next.hits ≡ scores acc.hits ++ take k (insert_all (scores docs) []))
        × (next.total_hits ≡ (acc.total_hits + length docs) % 2 ^ 64)

    Adds-none : (k : ℕ) (acc : PartialResult) → acc.total_hits < 2 ^ 64 → Adds k [] acc acc
    unfolding insert_all
    Adds-none k acc small = (
      sym (
          ap (◌++◌ (scores acc.hits)) (take-all k [] (omega arith)) ∙ append-nil (scores acc.hits)),
      omega (arith, small),
    )

    merge_results_step :
        (k : ℕ) (seg : SegmentMeta) (run : Result E (List Hit)) (rs : List (Result E PartialResult))
        (acc : PartialResult)
        → acc.total_hits < 2 ^ 64
        → (next : PartialResult) × (merge_results
              (and_then run (segment_search k (source seg)) ∷ rs)
              acc
            ≡ merge_results rs next)
          × Adds k (found run) acc next
    unfolding merge_results
    merge_results_step k seg (value docs) rs acc small =
        let (r, e, hits_are, total_is) = segment_search_lem (source seg) (source_ok seg) k docs in
        (
          record {
            hits = acc.hits ++ r.hits;
            total_hits = (acc.total_hits + r.total_hits) % 2 ^ 64;
          },
          rw e refl,
          (
            scores-append acc.hits r.hits ∙ ap (◌++◌ (scores acc.hits)) hits_are,
            omega (arith, total_is),
          ),
        )
    merge_results_step k seg (error e) rs acc small = (acc, refl, Adds-none k acc small)

    merge_results_lem :
        (k : ℕ) (segs : List SegmentMeta) (acc : PartialResult)
        → acc.total_hits < 2 ^ 64
        → (scores (merge_results (map (search_segment scored_docs source k) segs) acc).hits
            ≡ scores acc.hits ++ bests k segs)
          × ((merge_results (map (search_segment scored_docs source k) segs) acc).total_hits
              ≡ (acc.total_hits + length (all_found scored_docs segs)) % 2 ^ 64)
    unfolding search_segment merge_results
    merge_results_lem k [] acc small = (sym (append-nil (scores acc.hits)), omega (arith, small))
    merge_results_lem k (seg ∷ segs) acc small =
        let (next, e, (hits_are, total_is)) =
          merge_results_step k seg (scored_docs seg)
            (map (search_segment scored_docs source k) segs) acc small in
        let (rest_hits, rest_total) = merge_results_lem k segs next (omega (arith, total_is)) in
        let docs = found (scored_docs seg) in
        (
          ap (λ p. scores p.hits) e
              ∙ rest_hits
              ∙ ap (λ l. l ++ bests k segs) hits_are
              ∙ append_assoc (scores acc.hits) (take k (insert_all (scores docs) []))
                  (bests k segs),
          ap (λ p. p.total_hits) e
              ∙ rest_total
              ∙ omega (arith, total_is, length-append docs (all_found scored_docs segs)),
        )

    pub search_segments_lem :
        (from size : ℕ) (segs : List SegmentMeta)
        → (scores (search_segments scored_docs source from size segs).hits
            ≡ take size (drop from (scores (sort_hits (all_found scored_docs segs)))))
          × ((search_segments scored_docs source from size segs).total_hits
              ≡ length (all_found scored_docs segs) % 2 ^ 64)
    unfolding search_segments sort_hits respond
    search_segments_lem from size [] = (
      sym (ap (take size) (drop-all from [] (omega arith)) ∙ take-all size [] (omega arith)),
      refl,
    )
    search_segments_lem from size (seg ∷ segs) =
        let all = seg ∷ segs in
        let k = from + size in
        let merged = merge_results (map (search_segment scored_docs source k) all) no_results in
        let (hits_are, total_is) = merge_results_lem k all no_results (omega arith) in
        let docs = scores (all_found scored_docs all) in
        (
          scores-respond from size merged
              ∙ ap (λ l. take size (drop from (insert_all l []))) hits_are
              ∙ take-drop size from k (insert_all (bests k all) []) refl
              ∙ ap (drop from) (take-bests k all)
              ∙ sym (take-drop size from k (insert_all docs []) refl)
              ∙ ap (λ l. take size (drop from l))
                  (sym (scores-sort_hits (all_found scored_docs all))),
          omega (arith, total_is),
        )
