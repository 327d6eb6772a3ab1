-- ===== src/Compactor/Tests.antt =====
-- The theorems on pkg/index/compactor.go at a store with one manifest and the files of two segments.
use s3search.Base.{
  ◌≡◌, refl, arith, true, ◌&&◌, not, Bytes, List, [], ◌∷◌, ◌++◌, last?, if◌then◌else◌,
}
use s3search.Base.{
  has_prefix, some, ok, err, ◌⊎◌, inl, lookup, sort_strings, bytes_leb, bytes_beq, contains,
}
use s3search.Store.Blob.{not_found}
use s3search.Store.Mem.{MemStore, new_mem_store}
use s3search.Store.Laws.{mem_blob_store}
use s3search.Manifest.Key.{manifest_key}
use s3search.Manifest.Versions.{
  SegmentMeta, Manifest, Error, exceeded, active_of, active_segments, segments_of, latest,
  publish_transform,
}
use s3search.Manifest.History.{Refines}
use s3search.Manifest.Plain.{
  plain_manifests, index, one_segment, nobody, new_store-Refines, nobody-Interference,
}
use s3search.Compactor.Garbage.{segments_prefix, segment_key, dot, ids_of, is_spared, gc}
use s3search.Compactor.Mark.{replace_merged}
use s3search.Compactor.Pick.{bucket, pick_merge_candidates}
use s3search.Compactor.Candidates.{IsRange, IsBiggestTier, pick_merge_candidates_lem}
use s3search.Compactor.Tiers.{of_tier}
use s3search.Compactor.Smallest.{AreSmallest}
use mathlib.Core.List.{reverse}
use mathlib.Core.Path.{subst}
use s3search.Base.{
  ℕ, zero, suc, sym, ap, ◌∙◌, ==_iff, ◌==◌, nat_eq, get_elem?, Option, none, Bool-cases, inr,
}
use s3search.Base.{length, ◌≤◌, ◌<◌}
use s3search.Compactor.Kept.{gc_lem, gc-active}
use s3search.Compactor.Replaced.{without, merge_atomic}

abbrev first_manifest : Manifest
first_manifest = record {
  version = 1;
  index_name = index;
  segments = one_segment ∷ record one_segment { id = 50 ∷ []; deleted = true } ∷ [];
  created_at = 8;
}

-- "seg"
abbrev seg : Bytes
seg = 115 ∷ 101 ∷ 103 ∷ []

abbrev small_store : MemStore
small_store = record {
  objects =
      (segment_key index (49 ∷ []) (dot ∷ seg), 1 ∷ 2 ∷ [])
      ∷ (segment_key index (50 ∷ []) (dot ∷ seg), 3 ∷ [])
      ∷ (manifest_key index 1, plain_manifests.marshal first_manifest)
      ∷ [];
  range_log = [];
}

small_store-latest :
    latest mem_blob_store plain_manifests index small_store ≡ ok (some first_manifest)
unfolding latest s3search.Manifest.Versions.load s3search.Manifest.Versions.parse_manifest
    s3search.Manifest.Versions.from_store s3search.Store.Mem.get s3search.Store.Mem.list lookup
    sort_strings bytes_leb bytes_beq last? has_prefix manifest_key segment_key
    s3search.Manifest.Key.pad_six s3search.Manifest.Key.decimal
    s3search.Manifest.Key.manifest_prefix segments_prefix
small_store-latest = refl

gc_lem_example :
    (s' : MemStore) × (gc mem_blob_store plain_manifests index small_store ≡ ok s')
    × ((k : Bytes)
        → mem_blob_store.get s' k ≡ (
            if has_prefix (segments_prefix index) k
              && not (is_spared (ids_of (active_segments first_manifest)) k)
            then err not_found
            else mem_blob_store.get small_store k))
gc_lem_example =
    gc_lem mem_blob_store plain_manifests index small_store first_manifest small_store-latest

gc-active_example :
    (s' : MemStore) × (gc mem_blob_store plain_manifests index small_store ≡ ok s')
    × (mem_blob_store.get s' (segment_key index (49 ∷ []) (dot ∷ seg))
        ≡ mem_blob_store.get small_store (segment_key index (49 ∷ []) (dot ∷ seg)))
unfolding active_segments active_of contains
gc-active_example =
    gc-active mem_blob_store plain_manifests index small_store first_manifest one_segment seg
      small_store-latest (inl refl) refl refl refl

merge_atomic_example :
    (publish_transform mem_blob_store plain_manifests index 8 nobody 5 new_mem_store
        (replace_merged ((50 ∷ []) ∷ []) one_segment)
      ≡ err exceeded)
    ⊎ ((s' : MemStore) × (m : Manifest) × (more : List Manifest) × (publish_transform mem_blob_store
            plain_manifests index 8 nobody 5 new_mem_store
            (replace_merged ((50 ∷ []) ∷ []) one_segment)
          ≡ ok (s', m))
        × Refines mem_blob_store plain_manifests index s' (([] ++ more) ++ m ∷ [])
        × (active_segments m
            ≡ without ((50 ∷ []) ∷ []) (active_of (segments_of (last? ([] ++ more))))
              ++ one_segment ∷ []))
merge_atomic_example =
    merge_atomic mem_blob_store plain_manifests index 0 8 nobody 5 new_mem_store ((50 ∷ []) ∷ [])
      one_segment [] nobody-Interference new_store-Refines (omega arith) refl

-- four segments of one tier, and one of another in front of them
abbrev five_segments : List SegmentMeta
five_segments =
    record one_segment { id = 53 ∷ []; bytes = 5 }
    ∷ one_segment
    ∷ record one_segment { id = 50 ∷ []; bytes = 1000 }
    ∷ record one_segment { id = 51 ∷ [] }
    ∷ record one_segment { id = 52 ∷ []; bytes = 512 }
    ∷ []

abbrev small_tier : List SegmentMeta
small_tier = of_tier 3 five_segments

abbrev large_tier : List SegmentMeta
large_tier = of_tier 10 five_segments

abbrev tier_map : List (ℕ × List SegmentMeta)
tier_map = (3, small_tier) ∷ (10, large_tier) ∷ []

buckets_are : bucket five_segments [] ≡ tier_map
unfolding bucket s3search.Base.insert lookup
buckets_are = refl

-- the map is run through backwards
tier_map-IsRange : IsRange tier_map (reverse tier_map)
unfolding lookup
tier_map-IsRange = record { listed = listed; complete = complete }
  where
    listed :
        (i : ℕ) (b : ℕ × List SegmentMeta)
        → get_elem? (reverse tier_map) i ≡ some b
        → lookup b.0 tier_map ≡ some b.1
    listed zero b e =
        let same : ◌≡◌ {A = ℕ × List SegmentMeta} (10, large_tier) b = cc e in
        subst (λ (c : ℕ × List SegmentMeta). lookup c.0 tier_map ≡ some c.1) same refl
    listed (suc zero) b e =
        let same : ◌≡◌ {A = ℕ × List SegmentMeta} (3, small_tier) b = cc e in
        subst (λ (c : ℕ × List SegmentMeta). lookup c.0 tier_map ≡ some c.1) same refl
    listed (suc (suc i)) b e = absurd (cc e)

    complete :
        (t : ℕ) (v : List SegmentMeta)
        → lookup t tier_map ≡ some v
        → (i : ℕ) × (get_elem? (reverse tier_map) i ≡ some (t, v))
    complete t v e = elim (Bool-cases (3 == t)) [
      | inl three ↦
          let found : some small_tier ≡ some v = sym (rw three refl) ∙ e in
          (
            1,
            ap (λ o. elim o [ none ↦ none | some w ↦ some (3, w) ]) found
                ∙ ap (λ k. some (k, v)) ((==_iff 3 t).0 three),
          )
      | inr other ↦ elim (Bool-cases (10 == t)) [
        | inl ten ↦
            let found : some large_tier ≡ some v = sym (rw (other, ten) refl) ∙ e in
            (
              0,
              ap (λ o. elim o [ none ↦ none | some w ↦ some (10, w) ]) found
                  ∙ ap (λ k. some (k, v)) ((==_iff 10 t).0 ten),
            )
        | inr neither ↦
            let missing : ◌≡◌ {A = Option (List SegmentMeta)} none (some v) =
              sym (rw (other, neither) refl) ∙ e in
            absurd (cc missing)
      ]
    ]

pick_merge_candidates_example :
    IsBiggestTier five_segments (pick_merge_candidates reverse five_segments)
    ⊎ ((t : ℕ) → length (of_tier t five_segments) < 4)
      × ((length five_segments < 4) × (pick_merge_candidates reverse five_segments ≡ [])
          ⊎ AreSmallest 4 five_segments (pick_merge_candidates reverse five_segments))
pick_merge_candidates_example =
    pick_merge_candidates_lem reverse five_segments
      (subst (λ m. IsRange m (reverse m)) (sym buckets_are) tier_map-IsRange)
