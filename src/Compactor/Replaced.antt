-- ===== src/Compactor/Replaced.antt =====
-- What the lists of segments that pkg/index/compactor.go publishes mean for the active segments, also
-- against other writers.
use s3search.Base.{
  ℕ, ◌+◌, ◌*◌, ◌<◌, ◌≡◌, refl, ap, ◌∙◌, false, Bytes, List, [], ◌∷◌, ◌++◌, length, last?,
}
use s3search.Base.{
  contains, bytes_eq, lookup, if◌then◌else◌, Option, ok, err, ◌⊎◌, inl, inr, Bool-cases,
  Option-cases,
}
use s3search.Store.Blob.{BlobStore}
use s3search.Manifest.Versions.{
  SegmentMeta, Manifest, ManifestJson, exceeded, active_of, active_segments, segments_of,
  publish_transform,
}
use s3search.Manifest.History.{max_version, Refines}
use s3search.Manifest.Atomic.{Interference, publish_transform_atomic}
use s3search.Compactor.Mark.{mark_one, mark_deleted, replace_merged, with_version, bump_versions}

-- The segments with other ids.
abbrev pub without : List Bytes → List SegmentMeta → List SegmentMeta
without ids [] = []
without ids (s ∷ ss) = let rest = without ids ss in if contains s.id ids then rest else s ∷ rest

active_of-append : (ss ts : List SegmentMeta) → active_of (ss ++ ts) ≡ active_of ss ++ active_of ts
unfolding active_of
active_of-append [] ts = refl
active_of-append (s ∷ ss) ts = elim (Bool-cases s.deleted) [
  | inl gone ↦ rw (gone, active_of-append ss ts) refl
  | inr there ↦ rw (there, active_of-append ss ts) refl
]

active_of-mark_deleted :
    (ids : List Bytes) (ss : List SegmentMeta)
    → active_of (mark_deleted ids ss) ≡ without ids (active_of ss)
unfolding active_of mark_deleted mark_one
active_of-mark_deleted ids [] = refl
active_of-mark_deleted ids (s ∷ ss) = elim (Bool-cases (contains s.id ids)) [
  | inl source ↦ elim (Bool-cases s.deleted) [
    | inl gone ↦ rw (source, gone, active_of-mark_deleted ids ss) refl
    | inr there ↦ rw (source, there, active_of-mark_deleted ids ss, source) refl
  ]
  | inr other ↦ elim (Bool-cases s.deleted) [
    | inl gone ↦ rw (other, gone, active_of-mark_deleted ids ss) refl
    | inr there ↦ rw (other, there, active_of-mark_deleted ids ss, other) refl
  ]
]

-- The list that a merge publishes has for its active segments those of the list it was made from, less the
-- merged ones, and the new segment behind them.
pub active_of-replace_merged :
    (ids : List Bytes) (new_meta : SegmentMeta) (ss : List SegmentMeta)
    → new_meta.deleted ≡ false
    → active_of (replace_merged ids new_meta ss) ≡ without ids (active_of ss) ++ new_meta ∷ []
unfolding replace_merged
active_of-replace_merged ids new_meta ss h =
    active_of-append (mark_deleted ids ss) (new_meta ∷ [])
    ∙ rw (active_of-mark_deleted ids ss) (unfold active_of in rw h refl)

-- Against other writers that publish at most `k` manifests between its steps, and with versions of six digits,
-- the publication of a merge gives up or has put one manifest behind all of theirs: its active segments
-- are those of the last of them, less the merged ones, and the new segment. None that others have added
-- is lost, and none that they have taken away comes back.
pub merge_atomic :
    (bs : BlobStore) (json : ManifestJson) (name : Bytes) (k now : ℕ)
    (others : ℕ → bs.State → bs.State) (retries : ℕ) (s : bs.State) (ids : List Bytes)
    (new_meta : SegmentMeta) (h : List Manifest)
    → Interference bs json name k others
    → Refines bs json name s h
    → length h + 2 * retries * k < max_version
    → new_meta.deleted ≡ false
    → (publish_transform bs json name now others retries s (replace_merged ids new_meta)
        ≡ err exceeded)
      ⊎ ((s' : bs.State) × (m : Manifest) × (more : List Manifest) × (publish_transform bs json name
              now others retries s
              (replace_merged ids new_meta)
            ≡ ok (s', m))
          × Refines bs json name s' ((h ++ more) ++ m ∷ [])
          × (active_segments m
              ≡ without ids (active_of (segments_of (last? (h ++ more)))) ++ new_meta ∷ []))
unfolding active_segments
merge_atomic bs json name k now others retries s ids new_meta h inter r bound live =
    elim (publish_transform_atomic bs json name k now others retries s (replace_merged ids new_meta)
      h inter r bound) [
        | inl gave_up ↦ inl gave_up
        | inr (s', m, run, p) ↦ inr (
          s',
          m,
          p.more,
          run,
          p.appended,
          ap active_of p.from_last
              ∙ active_of-replace_merged ids new_meta (segments_of (last? (h ++ p.more))) live,
        )
      ]

-- The new versions of deletes take no segment away and add none.
active_of-bump_versions :
    (updates : List (Bytes × ℕ)) (ss : List SegmentMeta)
    → active_of (bump_versions updates ss) ≡ bump_versions updates (active_of ss)
unfolding active_of bump_versions
active_of-bump_versions updates [] = refl
active_of-bump_versions updates (s ∷ ss) = elim (Bool-cases s.deleted) [
  | inl gone ↦
      rw (with_version-deleted (lookup s.id updates), gone, active_of-bump_versions updates ss) refl
  | inr there ↦
      rw (with_version-deleted (lookup s.id updates), there, active_of-bump_versions updates ss)
        refl
]
  where
    with_version-deleted : (o : Option ℕ) → (with_version s o).deleted ≡ s.deleted
    with_version-deleted o =
        unfold with_version in elim (Option-cases o) [ inl n ↦ rw n refl | inr (v, e) ↦ rw e refl ]
