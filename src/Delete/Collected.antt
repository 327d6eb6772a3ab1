-- ===== src/Delete/Collected.antt =====
-- What the loop over the active segments of DeleteByQuery of pkg/index/delete.go collects.
use s3search.Base.{
  ℕ, ◌+◌, ◌%◌, ◌^◌, ◌≡◌, refl, sym, ap, ◌∙◌, arith, Bool, true, false, ◌&&◌, ◌||◌, not, Bool-cases,
  inl, inr, Bytes, List, [], ◌∷◌, ◌++◌, append-nil, append_assoc, length, All, contains, ◌==◌,
  ==_iff, nat_eq, Option, none, some, Outcome, ok,
}
use s3search.Store.Blob.{BlobStore}
use s3search.Manifest.Versions.{SegmentMeta}
use s3search.Compactor.Garbage.{segment_key}
use s3search.Segment.Build.{Codecs}
use s3search.Segment.Hotcache.{Hotcache, decode_hotcache}
use s3search.Query.Bitmap.{Roaring}
use s3search.Query.Node.{Node}
use s3search.Query.Leaves.{Reader}
use s3search.Query.Matches.{Segment, Serves, IsKnown, matches}
use s3search.Query.Deleted.{is_deleted, search_doc_ids_lem}
use s3search.Index.Flush.{seg_suffix, hotcache_suffix}
use s3search.Delete.{
  SegDel, wrapped, merged, cardinality, with_update, read_del_bitmap, new_matches_of,
  collect_deletes,
}

module _ (rb : Roaring) where
  empty_has : (d : ℕ) (xs : List ℕ) → length xs ≡ 0 → contains d xs ≡ false
  unfolding contains
  empty_has d [] e = refl
  empty_has d (x ∷ xs) e = absurd (omega (arith, e))

  a_member :
      (xs : List ℕ) (bm : rb.Bitmap)
      → ((d : ℕ) → contains d xs ≡ rb.has d bm)
      → (length xs == 0) ≡ false
      → (d : ℕ) × (rb.has d bm ≡ true)
  unfolding contains
  a_member [] bm same e = absurd (ground (arith, e))
  a_member (x ∷ xs) bm same e = (x, sym (same x) ∙ ground (arith, ==_iff x x))

  -- a bitmap with elements holds one
  member : (bm : rb.Bitmap) → (cardinality rb bm == 0) ≡ false → (d : ℕ) × (rb.has d bm ≡ true)
  member bm e = a_member (rb.elements bm) bm (λ d. rb.contains-elements d bm) e

  cardinality-zero :
      (bm : rb.Bitmap) (d : ℕ) → (cardinality rb bm == 0) ≡ true → rb.has d bm ≡ false
  cardinality-zero bm d e =
      sym (rb.contains-elements d bm)
      ∙ empty_has d (rb.elements bm) ((==_iff (cardinality rb bm) 0).0 e)

  has-merged :
      (existing : Option rb.Bitmap) (bm : rb.Bitmap) (d : ℕ)
      → rb.has d (merged rb existing bm) ≡ (is_deleted rb d existing || rb.has d bm)
  unfolding merged
  has-merged none bm d = ground (arith, rb.has-or d rb.new bm, rb.has-new d)
  has-merged (some old) bm d =
      ground (arith, rb.has-or d (rb.or rb.new old) bm, rb.has-or d rb.new old, rb.has-new d)

module _ (rb : Roaring) (codecs : Codecs rb) (bs : BlobStore) {E : Type 0} (index_name : Bytes)
    (reader : bs.State → Bytes → Outcome E (Reader rb E)) (tokenize : Bytes → List Bytes)
    (s : bs.State) (q : Node) where
  -- a segment whose bitmap of deletes and hotcache can be read, and the postings and positions of its terms
  pub record IsSearchable (meta : SegmentMeta) : Type 0 where
    pub existing : Option rb.Bitmap
    pub existing_is :
        read_del_bitmap rb codecs bs {E = E} index_name s meta.id meta.del_version ≡ ok existing
    pub hc_data : Bytes
    pub hc_data_is : bs.get s (segment_key index_name meta.id hotcache_suffix) ≡ ok hc_data
    pub hc : Hotcache
    pub hc_is : decode_hotcache codecs.load_fst hc_data ≡ ok hc
    pub r : Reader rb E
    pub r_is : reader s (segment_key index_name meta.id seg_suffix) ≡ ok r
    pub seg : Segment rb
    pub serves : Serves rb r seg hc

  -- the segments in order, each without a new match, or with one and with its new bitmap of deletes
  pub data AreCollected : List SegmentMeta → List (SegDel rb) → Type 0 where
    none_left : AreCollected [] []
    unchanged :
        (m : SegmentMeta) (ms : List SegmentMeta) (us : List (SegDel rb)) (h : IsSearchable m)
        → ((d : ℕ)
            → (matches rb h.seg h.hc tokenize d q && not (is_deleted rb d h.existing)) ≡ false)
        → AreCollected ms us
        → AreCollected (m ∷ ms) us
    updated :
        (m : SegmentMeta) (ms : List SegmentMeta) (u : SegDel rb) (us : List (SegDel rb))
        (h : IsSearchable m)
        → (d : ℕ) → (matches rb h.seg h.hc tokenize d q && not (is_deleted rb d h.existing)) ≡ true
        → u.seg_id ≡ m.id
        → u.new_version ≡ m.del_version + 1
        → ((d : ℕ)
            → rb.has d u.new_del_bm
              ≡ (is_deleted rb d h.existing || matches rb h.seg h.hc tokenize d q))
        → AreCollected ms us
        → AreCollected (m ∷ ms) (u ∷ us)

  or_new :
      (before matched : Bool) {new : Bool}
      → new ≡ (matched && not before)
      → (before || new) ≡ (before || matched)
  or_new true matched e = refl
  or_new false matched e = e ∙ ground arith

  new_matches_lem :
      (m : SegmentMeta) (h : IsSearchable m)
      → IsKnown q
      → (bm : rb.Bitmap) × (new_matches_of rb codecs bs index_name reader tokenize s q m h.existing
          ≡ ok bm)
        × ((d : ℕ)
            → rb.has d bm
              ≡ (matches rb h.seg h.hc tokenize d q && not (is_deleted rb d h.existing)))
  unfolding new_matches_of wrapped
  new_matches_lem m h known =
      let (bm, e, has_is) =
        search_doc_ids_lem rb h.r h.seg h.hc tokenize q h.existing h.serves known in
      (bm, rw (h.hc_data_is, h.hc_is, h.r_is, e) refl, has_is)

  -- Where each of the segments can be searched, and the query is of known node types, the loop succeeds. It
  -- collects, in their order, exactly the segments that have a match that is not deleted yet, each under its
  -- next version with the bitmap of exactly the documents that were deleted before or match.
  pub collect_deletes-AreCollected :
      (ms : List SegmentMeta) (us : List (SegDel rb)) (total : ℕ)
      → All IsSearchable ms
      → IsKnown q
      → (more : List (SegDel rb)) × (total' : ℕ) × (collect_deletes rb codecs bs index_name reader
            tokenize s q ms
            (us, total)
          ≡ ok (us ++ more, total'))
        × AreCollected ms more
  unfolding collect_deletes wrapped with_update
  collect_deletes-AreCollected [] us total hs known =
      ([], total, ap (λ l. ok (l, total)) (sym (append-nil us)), none_left)
  collect_deletes-AreCollected (m ∷ ms) us total (h, hs) known =
      let (bm, e, has_is) = new_matches_lem m h known in
      elim (Bool-cases (cardinality rb bm == 0)) [
        | inl no_match ↦
            let (more, total', e', c) = collect_deletes-AreCollected ms us total hs known in
            (
              more,
              total',
              rw (h.existing_is, e, no_match) e',
              unchanged m ms more h (λ d. sym (has_is d) ∙ cardinality-zero rb bm d no_match) c,
            )
        | inr some_new ↦
            let (d, there) = member rb bm some_new in
            let u : SegDel rb = record {
              seg_id = m.id;
              new_del_bm = merged rb h.existing bm;
              new_version = m.del_version + 1;
            } in
            let (more, total', e', c) =
              collect_deletes-AreCollected ms (us ++ u ∷ []) ((total + cardinality rb bm) % 2 ^ 64)
                hs known in
            (
              u ∷ more,
              total',
              rw (h.existing_is, e, some_new) e'
                  ∙ ap (λ l. ok (l, total')) (append_assoc us (u ∷ []) more),
              updated m ms u more h d (sym (has_is d) ∙ there) refl refl
                  (λ d.
                    has-merged rb h.existing bm d
                    ∙ or_new (is_deleted rb d h.existing) (matches rb h.seg h.hc tokenize d q)
                        (has_is d))
                  c,
            )
      ]
