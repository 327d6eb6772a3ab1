-- ===== src/Compactor/Kept.antt =====
-- What the collection of garbage in pkg/index/compactor.go deletes, and what it keeps.
use s3search.Base.{
  ℕ, ◌≡◌, ◌≢◌, refl, sym, ap, ◌∙◌, arith, true, false, ◌&&◌, not, Bytes, List, [], ◌∷◌, ◌++◌,
}
use s3search.Base.{
  ◌=?◌, bytes_eq, bytes_beq_iff, nat_eq, contains, has_prefix, if◌then◌else◌, none, some, Outcome,
  ok, err,
}
use s3search.Base.{Bool-cases, inl, inr, panic, stuck, ◌⊎◌, append_assoc, contains-append}
use s3search.Store.Blob.{StoreError, not_found, precondition_failed, BlobStore}
use s3search.Manifest.Versions.{SegmentMeta, Manifest, ManifestJson, active_segments, latest}
use s3search.Compactor.Garbage.{
  segments_prefix, segment_key, slash, dot, after_last, before_first, seg_id_of, extract_seg_id,
  ids_of, is_spared,
}
use s3search.Compactor.Garbage.{delete_garbage, collect, gc}

module _ (bs : BlobStore) (json : ManifestJson) (index_name : Bytes) where
  get-delete_garbage :
      (protected keys : List Bytes) (s : bs.State) (k : Bytes)
      → bs.get (delete_garbage bs json index_name protected keys s) k
        ≡ (if contains k keys && not (is_spared protected k) then err not_found else bs.get s k)
  unfolding delete_garbage contains
  get-delete_garbage protected [] s k = refl
  get-delete_garbage protected (key ∷ keys) s k = elim (Bool-cases (key =? k)) [
    | inl same ↦ ground (
      arith,
      get-delete_garbage protected keys (if is_spared protected key then s else bs.delete s key) k,
      bs.get-delete s key k,
      ap (is_spared protected) ((bytes_beq_iff key k).0 same),
    )
    | inr other ↦ ground (
      arith,
      get-delete_garbage protected keys (if is_spared protected key then s else bs.delete s key) k,
      bs.get-delete s key k,
    )
  ]

  really_absent : (o : Outcome StoreError Bytes) → ((o ≢ err not_found) → ⊥) → o ≡ err not_found
  really_absent (ok b) h = absurd (h (λ e. cc))
  really_absent (err not_found) h = refl
  really_absent (err precondition_failed) h = absurd (h (λ e. cc))
  really_absent panic h = absurd (h (λ e. cc))
  really_absent stuck h = absurd (h (λ e. cc))

  -- What is not listed is of another prefix or is not there.
  unlisted :
      (s : bs.State) (p k : Bytes)
      → contains k (bs.list s p) ≡ false
      → has_prefix p k ≡ true
      → bs.get s k ≡ err not_found
  unlisted s p k e pre =
      really_absent (bs.get s k) (λ present. cc (e, (bs.contains-list s p k).1 (pre, present)))

  listed_prefix :
      (s : bs.State) (p k : Bytes) → contains k (bs.list s p) ≡ true → has_prefix p k ≡ true
  listed_prefix s p k e = ((bs.contains-list s p k).0 e).0

  -- `GC` with a manifest deletes exactly the objects under the index's segments prefix whose key has a
  -- segment id that is not empty and not among the active segments. All others stay as they are.
  pub gc_lem :
      (s : bs.State) (m : Manifest)
      → latest bs json index_name s ≡ ok (some m)
      → (s' : bs.State) × (gc bs json index_name s ≡ ok s')
        × ((k : Bytes)
            → bs.get s' k ≡ (
                if has_prefix (segments_prefix index_name) k
                  && not (is_spared (ids_of (active_segments m)) k)
                then err not_found
                else bs.get s k))
  unfolding gc collect
  gc_lem s m e = (
    collect bs json index_name s (some m),
    rw e refl,
    λ k.
        let p = segments_prefix index_name in
        get-delete_garbage (ids_of (active_segments m)) (bs.list s p) s k
        ∙ elim (Bool-cases (contains k (bs.list s p))) [
          | inl listed ↦ rw (listed, listed_prefix s p k listed) refl
          | inr not_listed ↦ elim (Bool-cases (has_prefix p k)) [
            | inl pre ↦ ground (arith, unlisted s p k not_listed pre)
            | inr other ↦ ground arith
          ]
        ],
  )

after_last-none : (c : ℕ) (k : Bytes) → contains c k ≡ false → after_last c k ≡ none
unfolding after_last contains
after_last-none c [] h = refl
after_last-none c (b ∷ k) h = ground (arith, after_last-none c k)

-- the last part of a path
after_last-append :
    (c : ℕ) (front name : Bytes)
    → contains c name ≡ false
    → after_last c (front ++ c ∷ name) ≡ some name
unfolding after_last
after_last-append c [] name h = rw (after_last-none c name h) (ground arith)
after_last-append c (b ∷ front) name h = rw (after_last-append c front name h) refl

before_first-append :
    (c : ℕ) (id ext : Bytes) → contains c id ≡ false → before_first c (id ++ c ∷ ext) ≡ id
unfolding before_first contains
before_first-append c [] ext h = ground arith
before_first-append c (b ∷ id) ext h = ground (arith, before_first-append c id ext)

-- "/segments", without the slash behind it
abbrev infix_front : Bytes
infix_front = 47 ∷ 115 ∷ 101 ∷ 103 ∷ 109 ∷ 101 ∷ 110 ∷ 116 ∷ 115 ∷ []

extract_seg_id-segment_key :
    (index_name id ext : Bytes)
    → contains slash id ≡ false
    → contains dot id ≡ false
    → contains slash ext ≡ false
    → extract_seg_id (segment_key index_name id (dot ∷ ext)) ≡ id
unfolding extract_seg_id segment_key segments_prefix
extract_seg_id-segment_key index_name id ext id_slash id_dot ext_slash =
    ap (λ key. seg_id_of (after_last slash key)) split
    ∙ ap seg_id_of (
        after_last-append slash (index_name ++ infix_front) (id ++ dot ∷ ext)
          (contains-append slash id (dot ∷ ext) ∙ rw id_slash (unfold contains in ext_slash)))
    ∙ unfold seg_id_of in before_first-append dot id ext id_dot
  where
    split :
        segment_key index_name id (dot ∷ ext)
        ≡ (index_name ++ infix_front) ++ slash ∷ (id ++ dot ∷ ext)
    split =
        append_assoc index_name (infix_front ++ slash ∷ []) (id ++ dot ∷ ext)
        ∙ sym (append_assoc index_name infix_front (slash ∷ (id ++ dot ∷ ext)))

-- A segment that a list of segments holds.
abbrev pub Among : SegmentMeta → List SegmentMeta → Type 0
Among s [] = ⊥
Among s (t ∷ ts) = (s ≡ t) ⊎ Among s ts

contains-ids_of :
    (s : SegmentMeta) (ts : List SegmentMeta) → Among s ts → contains s.id (ids_of ts) ≡ true
unfolding contains ids_of
contains-ids_of s [] a = absurd a
contains-ids_of s (t ∷ ts) (inl e) =
    ground (arith, ap (λ (x : SegmentMeta). x.id) e, bytes_beq_iff t.id s.id)
contains-ids_of s (t ∷ ts) (inr a) = ground (arith, contains-ids_of s ts a)

-- `GC` leaves the files of every active segment of the manifest as they are, for segment ids without a slash
-- or a dot.
pub gc-active :
    (bs : BlobStore) (json : ManifestJson) (index_name : Bytes) (s : bs.State) (m : Manifest)
    (seg : SegmentMeta) (ext : Bytes)
    → latest bs json index_name s ≡ ok (some m)
    → Among seg (active_segments m)
    → contains slash seg.id ≡ false
    → contains dot seg.id ≡ false
    → contains slash ext ≡ false
    → (s' : bs.State) × (gc bs json index_name s ≡ ok s')
      × (bs.get s' (segment_key index_name seg.id (dot ∷ ext))
          ≡ bs.get s (segment_key index_name seg.id (dot ∷ ext)))
gc-active bs json index_name s m seg ext e among id_slash id_dot ext_slash =
    let (s', run, gets) = gc_lem bs json index_name s m e in
    let key = segment_key index_name seg.id (dot ∷ ext) in
    (s', run, gets key ∙ ground (arith, spared))
  where
    spared :
        is_spared (ids_of (active_segments m)) (segment_key index_name seg.id (dot ∷ ext)) ≡ true
    spared =
        unfold is_spared in
        rw (extract_seg_id-segment_key index_name seg.id ext id_slash id_dot ext_slash)
          (ground (arith, contains-ids_of seg (active_segments m) among))
