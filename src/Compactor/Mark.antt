-- ===== src/Compactor/Mark.antt =====
-- The functions that pkg/index/compactor.go and pkg/index/delete.go give to `PublishTransform`.
use s3search.Base.{
  ℕ, true, Bytes, List, [], ◌∷◌, ◌++◌, contains, bytes_eq, lookup, if◌then◌else◌, Option, none,
  some,
}
use s3search.Manifest.Versions.{SegmentMeta}

-- `if sourceIDs[s.ID] { s.Deleted = true }`
unfoldable pub mark_one : List Bytes → SegmentMeta → SegmentMeta
mark_one source_ids s = if contains s.id source_ids then record s { deleted = true } else s

unfoldable pub mark_deleted : List Bytes → List SegmentMeta → List SegmentMeta
unfolding mark_one
mark_deleted source_ids [] = []
mark_deleted source_ids (s ∷ segs) = mark_one source_ids s ∷ mark_deleted source_ids segs

-- The list that `merge` publishes.
unfoldable pub replace_merged : List Bytes → SegmentMeta → List SegmentMeta → List SegmentMeta
unfolding mark_deleted
replace_merged source_ids new_meta segs = mark_deleted source_ids segs ++ new_meta ∷ []

-- `segs[i].DelVersion = v`
unfoldable pub with_version : SegmentMeta → Option ℕ → SegmentMeta
with_version s none = s
with_version s (some v) = record s { del_version = v }

-- The list that `DeleteByQuery` publishes.
unfoldable pub bump_versions : List (Bytes × ℕ) → List SegmentMeta → List SegmentMeta
unfolding with_version
bump_versions update_map [] = []
bump_versions update_map (s ∷ segs) =
    with_version s (lookup s.id update_map) ∷ bump_versions update_map segs
