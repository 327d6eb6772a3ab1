-- ===== src/Manifest/Publish.antt =====
-- One conditional put of pkg/index/manifest.go: it appends to the history or is refused.
use native.Mathlib.Decide.{dec_lt}
use s3search.Base.{ℕ, suc, ◌+◌, ◌<◌, ◌≡◌, ◌≢◌, sym, ap, ◌∙◌, arith, Bytes, List, []}
use s3search.Base.{
  ◌∷◌, ◌++◌, length, length-append, get_elem?, get_elem?-append_lt, get_elem?-append_self,
  get_elem?-lt, get_elem?-some,
}
use s3search.Base.{true, Option, some, ok, err, ◌=?◌, bytes_eq, =?_ne, =?_refl}
use s3search.Base.{has_prefix, bytes_beq_iff, Bool-cases, inl, inr}
use s3search.Store.Blob.{not_found, BlobStore}
use s3search.Manifest.Key.{manifest_prefix, manifest_key}
use s3search.Manifest.KeyOrder.{manifest_key-ne}
use s3search.Manifest.Versions.{SegmentMeta, Manifest, ManifestJson, conflict, next_version}
use s3search.Manifest.Versions.{make_manifest, put_result, publish_next}
use s3search.Manifest.History.{max_version, Refines}

module _ (bs : BlobStore) (json : ManifestJson) (name : Bytes) where
  -- What the put of the next manifest leaves at another version.
  other_version :
      (s s' : bs.State) (u v : ℕ) (b : Bytes)
      → bs.put s (manifest_key name v) b true ≡ ok s'
      → manifest_key name v ≢ manifest_key name u
      → bs.get s' (manifest_key name u) ≡ bs.get s (manifest_key name u)
  other_version s s' u v b e ne =
      bs.get-put s s' (manifest_key name v) (manifest_key name u) b true e
      ∙ rw (=?_ne (manifest_key name v) (manifest_key name u) ne)

  Refines-put :
      (s s' : bs.State) (h : List Manifest) (m : Manifest)
      → Refines bs json name s h
      → length h < max_version
      → m.version ≡ suc (length h)
      → bs.put s (manifest_key name (suc (length h))) (json.marshal m) true ≡ ok s'
      → Refines bs json name s' (h ++ m ∷ [])
  Refines-put s s' h m r b v e = record {
    stored = stored;
    absent = λ u above small.
        other_version s s' u (suc (length h)) (json.marshal m) e
          (manifest_key-ne name (suc (length h)) u (omega (arith, size)) (omega arith))
        ∙ r.absent u (omega (arith, size)) small;
    only = only;
  }
    where
      size : length (h ++ m ∷ []) ≡ length h + 1
      size = length-append h (m ∷ [])

      stored :
          (i : ℕ) (m' : Manifest)
          → get_elem? (h ++ m ∷ []) i ≡ some m'
          → (m'.version ≡ suc i) × (bs.get s' (manifest_key name (suc i)) ≡ ok (json.marshal m'))
      stored i m' at = elim (dec_lt i (length h)) [
        | yes old ↦
            let (version, there) =
              r.stored i m' (sym (get_elem?-append_lt h (m ∷ []) i old) ∙ at) in
            (
              version,
              other_version s s' (suc i) (suc (length h)) (json.marshal m) e (λ p.
                    manifest_key-ne name (suc i) (suc (length h)) (omega arith) (omega arith)
                      (sym p))
                  ∙ there,
            )
        | no new ↦
            let last : i ≡ length h = omega (arith, size, get_elem?-lt (h ++ m ∷ []) i at) in
            let same : m ≡ m' =
              cc (get_elem?-append_self h m [], ap (get_elem? (h ++ m ∷ [])) last) in
            rw (← same, last)
              (
                v,
                bs.get-put s s' (manifest_key name (suc (length h))) _ (json.marshal m) true e
                    ∙ rw (=?_refl (manifest_key name (suc (length h)))),
              )
      ]

      only :
          (k : Bytes)
          → has_prefix (manifest_prefix name) k ≡ true
          → bs.get s' k ≢ err not_found
          → (i : ℕ) × (i < length (h ++ m ∷ [])) × (k ≡ manifest_key name (suc i))
      only k pre present = elim (Bool-cases (manifest_key name (suc (length h)) =? k)) [
        | inl here ↦ (length h, omega (arith, size), sym ((bytes_beq_iff _ _).0 here))
        | inr other ↦
            let unchanged : bs.get s' k ≡ bs.get s k =
              bs.get-put s s' (manifest_key name (suc (length h))) k (json.marshal m) true e
              ∙ rw other in
            let (i, below, same) = r.only k pre (λ p. present (unchanged ∙ p)) in
            (i, omega (arith, size), same)
      ]

  -- A put on behalf of the last manifest, or of none if there is none, goes through, and the manifest
  -- that was made becomes the last of the history.
  pub publish_next-last :
      (now : ℕ) (s : bs.State) (h : List Manifest) (current : Option Manifest)
      (segments : List SegmentMeta)
      → Refines bs json name s h
      → length h < max_version
      → next_version current ≡ suc (length h)
      → (s' : bs.State) × (publish_next bs json name now s current segments
          ≡ ok (s', make_manifest bs json name now current segments))
        × Refines bs json name s' (h ++ make_manifest bs json name now current segments ∷ [])
  unfolding publish_next
  publish_next-last now s h current segments r b next =
      let m = make_manifest bs json name now current segments in
      let (s', wrote) =
        bs.put_new s (manifest_key name (suc (length h))) (json.marshal m)
          (r.absent (suc (length h)) (omega arith) (omega arith)) in
      (
        s',
        ap (put_result bs json name m)
            (ap (λ v. bs.put s (manifest_key name v) (json.marshal m) true) next ∙ wrote),
        Refines-put s s' h m r b next wrote,
      )

  -- A put on behalf of an older manifest is refused as a conflict.
  pub publish_next-stale :
      (now : ℕ) (s : bs.State) (h : List Manifest) (current : Option Manifest)
      (segments : List SegmentMeta) (i : ℕ)
      → Refines bs json name s h
      → next_version current ≡ suc i
      → i < length h
      → publish_next bs json name now s current segments ≡ err (conflict (next_version current))
  unfolding publish_next
  publish_next-stale now s h current segments i r next old =
      let m = make_manifest bs json name now current segments in
      let (older, at) = get_elem?-some h i old in
      ap (put_result bs json name m) (
        ap (λ v. bs.put s (manifest_key name v) (json.marshal m) true) next
        ∙ bs.put_taken s (manifest_key name (suc i)) (json.marshal m) (json.marshal older)
            (r.stored i older at).1)
