-- ===== src/Manifest/Atomic.antt =====
-- The retry loops of pkg/index/manifest.go under interference: what another writer published between
-- the read and the put is never lost.
use s3search.Base.{ℕ, zero, suc, ◌+◌, ◌*◌, ◌<◌, ◌≤◌, ◌≡◌, refl, ap, ◌∙◌, arith, Bytes, List}
use s3search.Base.{[], ◌∷◌, ◌++◌, append-nil, append_assoc, length, length-append, Outcome, ok, err}
use s3search.Base.{◌>>=◌, last?, last?-cases, ◌⊎◌, inl, inr}
use s3search.Store.Blob.{BlobStore}
use s3search.Manifest.Versions.{
  SegmentMeta, Manifest, ManifestJson, Error, exceeded, next_version, or_retry,
}
use s3search.Manifest.Versions.{
  segments_of, latest, make_manifest, publish_next, publish, publish_transform, publish_with_retry,
}
use s3search.Manifest.History.{max_version, Refines, latest-last}
use s3search.Manifest.Publish.{publish_next-last, publish_next-stale}

module _ (bs : BlobStore) (json : ManifestJson) (name : Bytes) where
  -- The current manifest of a history is followed by the one at its length.
  next_version-last :
      (s : bs.State) (h : List Manifest)
      → Refines bs json name s h
      → length h ≤ max_version
      → next_version (last? h) ≡ suc (length h)
  unfolding next_version
  next_version-last s h r b = elim (last?-cases h) [
    | inl (empty, last) ↦ ap next_version last ∙ omega (arith, ap length empty)
    | inr (n, m, size, at, last) ↦ ap next_version last ∙ omega (arith, size, (r.stored n m at).0)
  ]

  -- Other writers append at most `k` manifests at a time, and leave those that are there.
  unfoldable pub Interference : ℕ → (ℕ → bs.State → bs.State) → Type 0
  Interference k others =
      (n : ℕ) (s : bs.State) (h : List Manifest)
      → Refines bs json name s h
      → (more : List Manifest) × Refines bs json name (others n s) (h ++ more) × (length more ≤ k)

  -- The put came behind all that others had published, and its list of segments was made from the
  -- last of those.
  pub record Published (fn : List SegmentMeta → List SegmentMeta) (h : List Manifest)
      (s' : bs.State) (m : Manifest) : Type 0 where
    pub more : List Manifest
    pub appended : Refines bs json name s' ((h ++ more) ++ m ∷ [])
    pub from_last : m.segments ≡ fn (segments_of (last? (h ++ more)))

  -- what a loop of attempts comes to
  abbrev pub Settled :
      (List SegmentMeta → List SegmentMeta)
      → List Manifest
      → Outcome Error (bs.State × Manifest)
      → Type 0
  Settled fn h result =
      (result ≡ err exceeded)
      ⊎ ((s' : bs.State) × (m : Manifest) × (result ≡ ok (s', m)) × Published fn h s' m)

  Settled-later :
      (fn : List SegmentMeta → List SegmentMeta) (h more : List Manifest)
      (result : Outcome Error (bs.State × Manifest))
      → Settled fn (h ++ more) result
      → Settled fn h result
  Settled-later fn h more result (inl e) = inl e
  Settled-later fn h more result (inr (s', m, e, p)) = inr (
    s',
    m,
    e,
    record {
      more = more ++ p.more;
      appended = rw assoc at p.appended;
      from_last = p.from_last ∙ ap (λ x. fn (segments_of (last? x))) assoc;
    },
  )
    where
      assoc : (h ++ more) ++ p.more ≡ h ++ (more ++ p.more)
      assoc = append_assoc h more p.more

  -- An attempt of `PublishTransform` that no other writer comes between succeeds, while the next version has
  -- six digits: it has put one manifest behind the last, whose segments are `fn` of those of the last.
  pub publish_transform_undisturbed :
      (now : ℕ) (others : ℕ → bs.State → bs.State) (retries : ℕ) (s : bs.State)
      (fn : List SegmentMeta → List SegmentMeta) (h more : List Manifest)
      → Refines bs json name (others (2 * retries + 1) s) (h ++ more)
      → Refines bs json name (others (2 * retries) (others (2 * retries + 1) s)) (h ++ more)
      → length (h ++ more) < max_version
      → (s' : bs.State) × (m : Manifest) × (publish_transform bs json name now others
            (suc retries)
            s
            fn
          ≡ ok (s', m))
        × Published fn h s' m
  unfolding publish_transform or_retry
  publish_transform_undisturbed now others retries s fn h more r1 r2 b =
      let h1 = h ++ more in
      let (s', put, r') =
        publish_next-last bs json name now _ h1 (last? h1) (fn (segments_of (last? h1))) r2 b
          (next_version-last _ h1 r1 (omega arith)) in
      (
        s',
        _,
        rw (latest-last bs json name _ h1 r1 (omega arith), put) refl,
        record { more = more; appended = r'; from_last = unfold make_manifest in refl },
      )

  -- one attempt
  attempt :
      (now : ℕ) (others : ℕ → bs.State → bs.State) (retries : ℕ) (s : bs.State)
      (fn : List SegmentMeta → List SegmentMeta) (h e1 e2 : List Manifest)
      → Refines bs json name (others (2 * retries + 1) s) (h ++ e1)
      → Refines bs json name (others (2 * retries) (others (2 * retries + 1) s)) ((h ++ e1) ++ e2)
      → length ((h ++ e1) ++ e2) < max_version
      → Settled fn ((h ++ e1) ++ e2) (
          publish_transform bs json name now others retries
            (others (2 * retries) (others (2 * retries + 1) s))
            fn)
      → Settled fn h (publish_transform bs json name now others (suc retries) s fn)
  unfolding publish_transform or_retry
  attempt now others retries s fn h e1 [] r1 r2 b later =
      let same : (h ++ e1) ++ [] ≡ h ++ e1 = append-nil (h ++ e1) in
      inr (
        publish_transform_undisturbed now others retries s fn h e1 r1 (rw same at r2)
          (rw same at b))
  attempt now others retries s fn h e1 (m ∷ e2) r1 r2 b later =
      let h1 = h ++ e1 in
      let size : length (h1 ++ m ∷ e2) ≡ length h1 + suc (length e2) = length-append h1 (m ∷ e2) in
      let bound : length h1 ≤ max_version = omega arith in
      let next = next_version-last _ h1 r1 bound in
      rw
        (
          latest-last bs json name _ h1 r1 bound,
          publish_next-stale bs json name now _ (h1 ++ m ∷ e2) (last? h1) _ (length h1) r2 next
              (omega arith),
        )
        (Settled-later fn h e1 _ (Settled-later fn h1 (m ∷ e2) _ later))

  -- `PublishTransform` against other writers who publish at most `k` manifests at a time, with versions of
  -- six digits: it either gives up after its retries, or it has put one manifest behind all those of
  -- the others, whose segments are `fn` of the segments of the last of those.
  pub publish_transform_atomic :
      (k now : ℕ) (others : ℕ → bs.State → bs.State) (retries : ℕ) (s : bs.State)
      (fn : List SegmentMeta → List SegmentMeta) (h : List Manifest)
      → Interference k others
      → Refines bs json name s h
      → length h + 2 * retries * k < max_version
      → Settled fn h (publish_transform bs json name now others retries s fn)
  unfolding Interference
  publish_transform_atomic k now others zero s fn h inter r b =
      inl (unfold publish_transform in refl)
  publish_transform_atomic k now others (suc retries) s fn h inter r b =
      let (e1, r1, b1) = inter (2 * retries + 1) s h r in
      let (e2, r2, b2) = inter (2 * retries) (others (2 * retries + 1) s) (h ++ e1) r1 in
      let size : length ((h ++ e1) ++ e2) ≡ length h + length e1 + length e2 =
        omega (arith, length-append (h ++ e1) e2, length-append h e1) in
      attempt now others retries s fn h e1 e2 r1 r2 (grind arith) (
        publish_transform_atomic k now others retries
          (others (2 * retries) (others (2 * retries + 1) s)) fn ((h ++ e1) ++ e2) inter r2
          (grind arith))

  -- `PublishWithRetry` is `PublishTransform` with a function that appends the new segment.
  pub publish_with_retry-transform :
      (now : ℕ) (others : ℕ → bs.State → bs.State) (retries : ℕ) (s : bs.State)
      (new_seg : SegmentMeta)
      → publish_with_retry bs json name now others retries s new_seg
        ≡ publish_transform bs json name now others retries s (λ segs. segs ++ new_seg ∷ [])
  unfolding publish_with_retry publish_transform publish
  publish_with_retry-transform now others zero s new_seg = refl
  publish_with_retry-transform now others (suc retries) s new_seg =
      ap
        (λ rest. latest bs json name (others (2 * retries + 1) s) >>= λ current.
          or_retry
            (publish_next bs json name now (others (2 * retries) (others (2 * retries + 1) s))
              current (segments_of current ++ new_seg ∷ []))
            rest)
        (publish_with_retry-transform now others retries
          (others (2 * retries) (others (2 * retries + 1) s)) new_seg)

  -- `PublishWithRetry` against other writers who publish at most `k` manifests at a time, with versions of
  -- six digits: it either gives up, or has put one manifest behind all those of the others, whose
  -- segments are those of the last of them and then the new one.
  pub publish_with_retry_atomic :
      (k now : ℕ) (others : ℕ → bs.State → bs.State) (retries : ℕ) (s : bs.State)
      (new_seg : SegmentMeta) (h : List Manifest)
      → Interference k others
      → Refines bs json name s h
      → length h + 2 * retries * k < max_version
      → Settled
          (λ segs. segs ++ new_seg ∷ [])
          h
          (publish_with_retry bs json name now others retries s new_seg)
  publish_with_retry_atomic k now others retries s new_seg h inter r b =
      rw (publish_with_retry-transform now others retries s new_seg)
        (publish_transform_atomic k now others retries s (λ segs. segs ++ new_seg ∷ []) h inter r b)
