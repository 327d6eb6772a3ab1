-- ===== src/Manifest/Others.antt =====
-- The objects of a store that are no manifests, while manifests are published.
use s3search.Base.{
  ℕ, zero, suc, ◌+◌, ◌*◌, ◌≡◌, ◌≢◌, ◌⊎◌, inl, inr, refl, ap, ◌∙◌, Bytes, List, [], ◌∷◌, ◌++◌, true,
  false, Bool, has_prefix, has_prefix-append, bytes_eq, =?_ne, Option, Outcome, ok, err, panic,
  stuck, >>=-eq-ok,
}
use s3search.Store.Blob.{StoreError, not_found, precondition_failed, BlobStore}
use s3search.Manifest.Key.{manifest_prefix, manifest_key, pad_six, json_suffix}
use s3search.Manifest.Versions.{
  SegmentMeta, Manifest, ManifestJson, Error, store, parse, conflict, exceeded, or_retry,
  segments_of, latest, put_result, publish_next, publish, publish_with_retry, make_manifest,
}
use s3search.Manifest.History.{Refines}

module _ (bs : BlobStore) (json : ManifestJson) (name : Bytes) where
  -- a key that is no manifest's
  abbrev pub IsOther : Bytes → Type 0
  IsOther k = has_prefix (manifest_prefix name) k ≡ false

  IsOther-ne : (k : Bytes) (v : ℕ) → IsOther k → manifest_key name v ≢ k
  unfolding manifest_key
  IsOther-ne k v h e = cc (
    h,
    ap (has_prefix (manifest_prefix name)) e,
    has_prefix-append (manifest_prefix name) (pad_six v ++ json_suffix),
  )

  -- A put under another key leaves the history.
  pub Refines-put_other :
      (s s' : bs.State) (h : List Manifest) (k b : Bytes) (c : Bool)
      → IsOther k
      → bs.put s k b c ≡ ok s'
      → Refines bs json name s h
      → Refines bs json name s' h
  Refines-put_other s s' h k b c other wrote r = record {
    stored = λ i m at. ((r.stored i m at).0, same (suc i) ∙ (r.stored i m at).1);
    absent = λ v above small. same v ∙ r.absent v above small;
    only = λ j pre present. r.only j pre (λ e. present (same_key j pre ∙ e));
  }
    where
      same_key : (j : Bytes) → has_prefix (manifest_prefix name) j ≡ true → bs.get s' j ≡ bs.get s j
      same_key j pre =
          bs.get-put s s' k j b c wrote
          ∙ rw (=?_ne k j (λ e. cc (other, pre, ap (has_prefix (manifest_prefix name)) e))) refl

      same : (v : ℕ) → bs.get s' (manifest_key name v) ≡ bs.get s (manifest_key name v)
      same v = same_key (manifest_key name v) (
          unfold manifest_key in
          has_prefix-append (manifest_prefix name) (pad_six v ++ json_suffix))

  put_result-ok :
      (m m' : Manifest) (r : Outcome StoreError bs.State) (s' : bs.State)
      → put_result bs json name m r ≡ ok (s', m')
      → r ≡ ok s'
  unfolding put_result
  put_result-ok m m' (ok s) s' e = cc
  put_result-ok m m' (err precondition_failed) s' e = cc
  put_result-ok m m' (err not_found) s' e = cc
  put_result-ok m m' panic s' e = cc
  put_result-ok m m' stuck s' e = cc

  or_retry-ok :
      {A : Type 0} (first again : Outcome Error A) (a : A)
      → or_retry first again ≡ ok a
      → (first ≡ ok a) ⊎ (again ≡ ok a)
  unfolding or_retry
  or_retry-ok (ok r) again a e = inl e
  or_retry-ok (err (store x)) again a e = cc
  or_retry-ok (err parse) again a e = cc
  or_retry-ok (err (conflict v)) again a e = inr e
  or_retry-ok (err exceeded) again a e = cc
  or_retry-ok panic again a e = cc
  or_retry-ok stuck again a e = cc

  publish_next-get :
      (now : ℕ) (s s' : bs.State) (current : Option Manifest) (segments : List SegmentMeta)
      (m : Manifest) (k : Bytes)
      → IsOther k
      → publish_next bs json name now s current segments ≡ ok (s', m)
      → bs.get s' k ≡ bs.get s k
  unfolding publish_next
  publish_next-get now s s' current segments m k other e =
      let next = make_manifest bs json name now current segments in
      bs.get-put s s' (manifest_key name next.version) k (json.marshal next) true
        (put_result-ok next m _ s' e)
      ∙ rw (=?_ne (manifest_key name next.version) k (IsOther-ne k next.version other)) refl

  -- What other writers leave alone, `PublishWithRetry` does.
  pub publish_with_retry-get :
      (now : ℕ) (others : ℕ → bs.State → bs.State) (retries : ℕ) (s s' : bs.State)
      (seg : SegmentMeta) (m : Manifest) (k : Bytes)
      → IsOther k
      → ((n : ℕ) (t : bs.State) → bs.get (others n t) k ≡ bs.get t k)
      → publish_with_retry bs json name now others retries s seg ≡ ok (s', m)
      → bs.get s' k ≡ bs.get s k
  unfolding publish_with_retry publish
  publish_with_retry-get now others zero s s' seg m k other keep e = cc
  publish_with_retry-get now others (suc retries) s s' seg m k other keep e =
      let before = others (2 * retries + 1) s in
      let now_store = others (2 * retries) before in
      let (current, read, e') = >>=-eq-ok (latest bs json name before) _ e in
      elim (or_retry-ok
        (publish_next bs json name now now_store current (segments_of current ++ seg ∷ []))
        (publish_with_retry bs json name now others retries now_store seg) (s', m) e') [
          | inl first ↦
              publish_next-get now now_store s' current _ m k other first
              ∙ keep (2 * retries) before
              ∙ keep (2 * retries + 1) s
          | inr again ↦
              publish_with_retry-get now others retries now_store s' seg m k other keep again
              ∙ keep (2 * retries) before
              ∙ keep (2 * retries + 1) s
        ]
