-- ===== src/Manifest/History.antt =====
-- The manifests of pkg/index/manifest.go as an append-only list, oldest first, which the store
-- implements: what `Latest` and `publishNext` do to it.
use s3search.Base.{ℕ, suc, ◌<◌, ◌≤◌, ◌≡◌, ◌≢◌, refl, ap, ◌∙◌, arith, Bytes, List}
use s3search.Base.{◌++◌, length, get_elem?}
use s3search.Base.{true, some, ok, err, bytes_eq}
use s3search.Base.{has_prefix, has_prefix-append, bytes_leb_refl, sort_strings, last?}
use s3search.Base.{last-sort_strings, last-sort_none, last?-cases, inl, inr}
use native.Mathlib.Decide.{dec_lt}
use s3search.Store.Blob.{not_found, BlobStore}
use s3search.Manifest.Key.{pad_six, json_suffix, manifest_prefix, manifest_key}
use s3search.Manifest.KeyOrder.{manifest_key_order}
use s3search.Manifest.Versions.{Manifest, ManifestJson}
use s3search.Manifest.Versions.{parse_manifest, load, latest}

-- The versions that have keys of six digits.
abbrev pub max_version : ℕ
max_version = 999999

module _ (bs : BlobStore) (json : ManifestJson) (name : Bytes) where
  -- the manifests that the store holds under the keys of the index
  pub record Refines (s : bs.State) (h : List Manifest) : Type 0 where
    pub stored :
        (i : ℕ) (m : Manifest)
        → get_elem? h i ≡ some m
        → (m.version ≡ suc i) × (bs.get s (manifest_key name (suc i)) ≡ ok (json.marshal m))
    pub absent :
        (v : ℕ) → length h < v → v ≤ max_version → bs.get s (manifest_key name v) ≡ err not_found
    pub only :
        (k : Bytes)
        → has_prefix (manifest_prefix name) k ≡ true
        → bs.get s k ≢ err not_found
        → (i : ℕ) × (i < length h) × (k ≡ manifest_key name (suc i))

  has_key_prefix : (v : ℕ) → has_prefix (manifest_prefix name) (manifest_key name v) ≡ true
  unfolding manifest_key
  has_key_prefix v = has_prefix-append (manifest_prefix name) (pad_six v ++ json_suffix)

  load_stored :
      (s : bs.State) (k : Bytes) (m : Manifest)
      → bs.get s k ≡ ok (json.marshal m)
      → load bs json name s (some k) ≡ ok (some m)
  unfolding load
  load_stored s k m e = rw (e, json.unmarshal-marshal m, parse_manifest)

  -- the key that `Latest` picks
  latest_key :
      (s : bs.State) (h : List Manifest) (n : ℕ) (m : Manifest)
      → Refines s h
      → length h ≤ max_version
      → length h ≡ suc n
      → get_elem? h n ≡ some m
      → last? (sort_strings (bs.list s (manifest_prefix name))) ≡ some (manifest_key name (suc n))
  latest_key s h n m r b size at =
      last-sort_strings (manifest_key name (suc n)) (bs.list s (manifest_prefix name))
        ((bs.contains-list s (manifest_prefix name) (manifest_key name (suc n))).1
          (has_key_prefix (suc n), λ e. cc ((r.stored n m at).1)))
        λ k member.
          let (pre, present) = (bs.contains-list s (manifest_prefix name) k).0 member in
          let (i, below, same) = r.only k pre present in
          rw same (elim (dec_lt i n) [
            | yes less ↦ (manifest_key_order name (suc i) (suc n) (omega arith) (omega arith)).0
            | no equal ↦
                let e : i ≡ n = omega arith in rw e (bytes_leb_refl (manifest_key name (suc n)))
          ])

  -- While the versions have six digits, `Latest` gives the last manifest of the history, and no manifest
  -- if there is none yet.
  pub latest-last :
      (s : bs.State) (h : List Manifest)
      → Refines s h
      → length h ≤ max_version
      → latest bs json name s ≡ ok (last? h)
  unfolding latest
  latest-last s h r b = elim (last?-cases h) [
    | inl (empty, last) ↦ rw last (
        ap (load bs json name s) (
          last-sort_none (bs.list s (manifest_prefix name)) λ k member.
            let (pre, present) = (bs.contains-list s (manifest_prefix name) k).0 member in
            let (i, below, same) = r.only k pre present in absurd (omega (arith, ap length empty)))
        ∙ unfold load in refl)
    | inr (n, m, size, at, last) ↦ rw last (
        ap (load bs json name s) (latest_key s h n m r b size at)
        ∙ load_stored s (manifest_key name (suc n)) m (r.stored n m at).1)
  ]
