-- ===== src/Index/FlushedFiles.antt =====
-- What `runFlush` of pkg/index/index.go leaves in the store.
use s3search.Base.{
  ℕ, ◌+◌, ◌*◌, ◌<◌, ◌≡◌, ◌≢◌, inl, inr, refl, ap, ◌∙◌, arith, Bytes, List, [], ◌∷◌, ◌++◌,
  append_assoc, length, length-append, false, has_prefix, bytes_eq, =?_ne, =?_refl, Outcome, ok,
  err, panic, stuck, >>=-eq-ok,
}
use s3search.Store.Blob.{BlobStore}
use s3search.Manifest.Key.{manifest_prefix, manifest_infix}
use s3search.Manifest.Versions.{SegmentMeta, Manifest, ManifestJson, Error}
use s3search.Manifest.History.{max_version, Refines}
use s3search.Manifest.Atomic.{Interference, Settled, Published, publish_with_retry_atomic}
use s3search.Manifest.Others.{Refines-put_other, publish_with_retry-get}
use s3search.Compactor.Garbage.{segments_prefix, segments_infix, segment_key}
use s3search.Segment.Build.{BuildResult}
use s3search.Index.Memtable.{Settings, Memtable, memtable_build}
use s3search.Index.Flush.{
  build_segment, upload, publish_manifest, wrap, seg_suffix, hotcache_suffix, upload_files, meta_of,
  run_flush,
}

wrap-ok {ℓ κ μ} :
    {E : Type ℓ} {F : Type κ} {A : Type μ} (f : E → F) (r : Outcome E A) (a : A)
    → wrap f r ≡ ok a
    → r ≡ ok a
unfolding wrap
wrap-ok f (ok b) a e = cc
wrap-ok f (err x) a e = cc
wrap-ok f panic a e = cc
wrap-ok f stuck a e = cc

has_prefix-front : (front p s : Bytes) → has_prefix (front ++ p) (front ++ s) ≡ has_prefix p s
unfolding has_prefix
has_prefix-front [] p s = refl
has_prefix-front (c ∷ front) p s = ground (arith, has_prefix-front front p s)

-- The key of a segment's file is no manifest's.
segment_key-IsOther :
    (name seg_id ext : Bytes)
    → has_prefix (manifest_prefix name) (segment_key name seg_id ext) ≡ false
unfolding manifest_prefix segment_key segments_prefix
segment_key-IsOther name seg_id ext = rw (append_assoc name segments_infix (seg_id ++ ext)) (
    has_prefix-front name manifest_infix (segments_infix ++ (seg_id ++ ext))
    ∙ unfold has_prefix in refl)

files_differ :
    (name seg_id : Bytes)
    → segment_key name seg_id hotcache_suffix ≢ segment_key name seg_id seg_suffix
unfolding segment_key
files_differ name seg_id e = omega (
  arith,
  ap length e,
  length-append (segments_prefix name) (seg_id ++ hotcache_suffix),
  length-append (segments_prefix name) (seg_id ++ seg_suffix),
  length-append seg_id hotcache_suffix,
  length-append seg_id seg_suffix,
)

module _ (bs : BlobStore) (json : ManifestJson) (set : Settings) (name : Bytes) where
  -- the two files of a segment as they were built
  pub record HasFiles (s : bs.State) (seg_id : Bytes) (result : BuildResult) : Type 0 where
    pub has_seg : bs.get s (segment_key name seg_id seg_suffix) ≡ ok result.seg_bytes
    pub has_hotcache : bs.get s (segment_key name seg_id hotcache_suffix) ≡ ok result.hotcache_bytes

  -- both uploads
  record Uploaded (s : bs.State) (h : List Manifest) (s' : bs.State) (seg_id : Bytes)
      (result : BuildResult) : Type 0 where
    files : HasFiles s' seg_id result
    history : Refines bs json name s' h

  upload_files-Uploaded :
      (seg_id : Bytes) (s s' : bs.State) (h : List Manifest) (result : BuildResult)
      → Refines bs json name s h
      → upload_files bs name seg_id s result ≡ ok s'
      → Uploaded s h s' seg_id result
  unfolding upload_files
  upload_files-Uploaded seg_id s s' h result r e =
      let (s1, first, second) =
        >>=-eq-ok
          (wrap upload (bs.put s (segment_key name seg_id seg_suffix) result.seg_bytes false)) _
          e in
      let wrote1 = wrap-ok upload _ s1 first in
      let wrote2 = wrap-ok upload _ s' second in
      record {
        files = record {
          has_seg =
              bs.get-put s1 s' (segment_key name seg_id hotcache_suffix)
                (segment_key name seg_id seg_suffix) result.hotcache_bytes false wrote2
              ∙ rw (=?_ne _ _ (files_differ name seg_id)) refl
              ∙ bs.get-put s s1 (segment_key name seg_id seg_suffix)
                  (segment_key name seg_id seg_suffix) result.seg_bytes false wrote1
              ∙ rw (=?_refl (segment_key name seg_id seg_suffix)) refl;
          has_hotcache =
              bs.get-put s1 s' (segment_key name seg_id hotcache_suffix)
                (segment_key name seg_id hotcache_suffix) result.hotcache_bytes false wrote2
              ∙ rw (=?_refl (segment_key name seg_id hotcache_suffix)) refl;
        };
        history =
            Refines-put_other bs json name s1 s' h (segment_key name seg_id hotcache_suffix)
              result.hotcache_bytes false (segment_key-IsOther name seg_id hotcache_suffix) wrote2
              (Refines-put_other bs json name s s1 h (segment_key name seg_id seg_suffix)
                result.seg_bytes false (segment_key-IsOther name seg_id seg_suffix) wrote1 r);
      }

  -- A loop of attempts that gave a manifest has published it.
  Settled-ok :
      (fn : List SegmentMeta → List SegmentMeta) (h : List Manifest)
      (result : Outcome Error (bs.State × Manifest)) (s' : bs.State) (m : Manifest)
      → Settled bs json name fn h result
      → result ≡ ok (s', m)
      → Published bs json name fn h s' m
  Settled-ok fn h result s' m (inl gave_up) e = absurd (cc (gave_up, e))
  Settled-ok fn h result s' m (inr (s'', m', e', p)) e =
      let store_same : s' ≡ s'' = cc (e, e') in
      let manifest_same : m ≡ m' = cc (e, e') in rw (store_same, manifest_same) p

  -- `runFlush` that gives no error, against other writers who publish at most `k` manifests at a time and
  -- leave the two files of the new segment, with versions of six digits: the store holds both files as
  -- `Build` made them of the snapshot, and one manifest behind all those of the others lists the new
  -- segment behind the segments of the last of them.
  pub run_flush-Published :
      (k now : ℕ) (others : ℕ → bs.State → bs.State) (seg_id : Bytes) (s s' : bs.State)
      (h : List Manifest) (snap : Memtable set) (m : Manifest)
      → Interference bs json name k others
      → ((n : ℕ) (t : bs.State)
          → (bs.get (others n t) (segment_key name seg_id seg_suffix)
              ≡ bs.get t (segment_key name seg_id seg_suffix))
            × (bs.get (others n t) (segment_key name seg_id hotcache_suffix)
                ≡ bs.get t (segment_key name seg_id hotcache_suffix)))
      → Refines bs json name s h
      → length h + 10 * k < max_version
      → run_flush bs set json name now others seg_id s snap ≡ ok (s', m)
      → (result : BuildResult) × (memtable_build set snap ≡ ok result)
        × HasFiles s' seg_id result
        × Published bs json name (λ segs. segs ++ meta_of seg_id now result ∷ []) h s' m
  unfolding run_flush
  run_flush-Published k now others seg_id s s' h snap m inter keep r small e =
      let (result, built, e1) = >>=-eq-ok (wrap build_segment (memtable_build set snap)) _ e in
      let (s1, uploaded, e2) = >>=-eq-ok (upload_files bs name seg_id s result) _ e1 in
      let u = upload_files-Uploaded seg_id s s1 h result r uploaded in
      let published = wrap-ok publish_manifest _ (s', m) e2 in
      let meta = meta_of seg_id now result in
      (
        result,
        wrap-ok build_segment (memtable_build set snap) result built,
        record {
          has_seg =
              publish_with_retry-get bs json name now others 5 s1 s' meta m
                (segment_key name seg_id seg_suffix) (segment_key-IsOther name seg_id seg_suffix)
                (λ n t. (keep n t).0) published
              ∙ u.files.has_seg;
          has_hotcache =
              publish_with_retry-get bs json name now others 5 s1 s' meta m
                (segment_key name seg_id hotcache_suffix)
                (segment_key-IsOther name seg_id hotcache_suffix) (λ n t. (keep n t).1) published
              ∙ u.files.has_hotcache;
        },
        Settled-ok (λ segs. segs ++ meta ∷ []) h _ s' m
            (publish_with_retry_atomic bs json name k now others 5 s1 meta h inter u.history
              (omega (arith, small)))
            published,
      )
