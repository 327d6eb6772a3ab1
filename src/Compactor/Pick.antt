-- ===== src/Compactor/Pick.antt =====
-- `pickMergeCandidates` of pkg/index/compactor.go. The order in which Go runs through the map of tiers is a
-- parameter; sort.Slice may put segments of equal size in any order, of which this is one.
use s3search.Base.{ℕ, zero, suc, ◌/◌, ◌&&◌, List, [], ◌∷◌, ◌++◌, length, take, max, leb, ltb, ◌==◌}
use s3search.Base.{nat_eq, lookup, insert, if◌then◌else◌, Option, none, some}
use s3search.Manifest.Versions.{SegmentMeta}

abbrev pub min_merge_count : ℕ
min_merge_count = 4

-- `bits.Len64`
unfoldable pub bit_length : ℕ → ℕ → ℕ
bit_length zero v = 0
bit_length (suc fuel) v = let rest = bit_length fuel (v / 2) in if v == 0 then 0 else suc rest

unfoldable pub tier_of : SegmentMeta → ℕ
unfolding bit_length
tier_of s = bit_length 64 (max 1 s.bytes)

unfoldable pub or_empty : Option (List SegmentMeta) → List SegmentMeta
or_empty none = []
or_empty (some segs) = segs

-- `tierMap[tier] = append(tierMap[tier], s)`
unfoldable pub add_to_tier :
    ℕ → SegmentMeta → List (ℕ × List SegmentMeta) → List (ℕ × List SegmentMeta)
unfolding or_empty
add_to_tier tier s tier_map = insert tier (or_empty (lookup tier tier_map) ++ s ∷ []) tier_map

unfoldable pub bucket : List SegmentMeta → List (ℕ × List SegmentMeta) → List (ℕ × List SegmentMeta)
unfolding add_to_tier tier_of
bucket [] tier_map = tier_map
bucket (s ∷ segs) tier_map = bucket segs (add_to_tier (tier_of s) s tier_map)

-- the loop that finds the tier with the most segments, of those with enough
unfoldable pub best_of : List SegmentMeta → List (ℕ × List SegmentMeta) → List SegmentMeta
best_of best [] = best
best_of best ((tier, v) ∷ tiers) =
    best_of (if leb min_merge_count (length v) && ltb (length best) (length v) then v else best)
      tiers

unfoldable pub insert_by_bytes : SegmentMeta → List SegmentMeta → List SegmentMeta
insert_by_bytes s [] = s ∷ []
insert_by_bytes s (t ∷ segs) =
    let rest = insert_by_bytes s segs in if leb s.bytes t.bytes then s ∷ t ∷ segs else t ∷ rest

unfoldable pub sort_by_bytes : List SegmentMeta → List SegmentMeta
unfolding insert_by_bytes
sort_by_bytes [] = []
sort_by_bytes (s ∷ segs) = insert_by_bytes s (sort_by_bytes segs)

-- the smallest four, if there are four
unfoldable pub fall_back : List SegmentMeta → List SegmentMeta
unfolding sort_by_bytes
fall_back segs =
    if leb min_merge_count (length segs) then take min_merge_count (sort_by_bytes segs) else []

unfoldable pub or_fall_back : List SegmentMeta → List SegmentMeta → List SegmentMeta
unfolding fall_back
or_fall_back [] segs = fall_back segs
or_fall_back (b ∷ best) segs = b ∷ best

-- Without segments no tier has any.
unfoldable pub pick_merge_candidates :
    (List (ℕ × List SegmentMeta) → List (ℕ × List SegmentMeta))
    → List SegmentMeta
    → List SegmentMeta
unfolding best_of bucket or_fall_back
pick_merge_candidates map_order segs = or_fall_back (best_of [] (map_order (bucket segs []))) segs
