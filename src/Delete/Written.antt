-- ===== src/Delete/Written.antt =====
-- The bitmaps that DeleteByQuery of pkg/index/delete.go writes, and what ReadDelBitmap reads back.
use Prim.{tt}
use s3search.Base.{
  ◌≡◌, refl, ◌∙◌, false, Bytes, List, [], ◌∷◌, All, ◌=?◌, =?_refl, bytes_eq, ◌==◌, some, ok,
}
use s3search.Store.Blob.{BlobStore}
use s3search.Segment.Build.{Codecs}
use s3search.Segment.Ranges.{CodecLaws}
use s3search.Query.Bitmap.{Roaring}
use s3search.Delete.{
  SegDel, del_key, wrapped, write_del_bitmap, parse_bitmap, found_bitmap, read_del_bitmap,
  write_all,
}

module _ (rb : Roaring) (index_name : Bytes) where
  abbrev pub key_of : SegDel rb → Bytes
  key_of u = del_key index_name u.seg_id u.new_version

  -- updates that write no object under a key
  abbrev pub LeaveAlone : Bytes → List (SegDel rb) → Type 0
  LeaveAlone k = All (λ u. (key_of u =? k) ≡ false)

  -- updates with a key of their own and a version behind the first
  abbrev pub AreApart : List (SegDel rb) → Type 0
  AreApart [] = Unit
  AreApart (u ∷ us) = ((u.new_version == 0) ≡ false) × LeaveAlone (key_of u) us × AreApart us

module _ (rb : Roaring) (codecs : Codecs rb) (bs : BlobStore) (E : Type 0)
    (index_name : Bytes) where
  abbrev pub IsReadBack : bs.State → SegDel rb → Type 0
  IsReadBack s u =
      read_del_bitmap rb codecs bs {E = E} index_name s u.seg_id u.new_version
      ≡ ok (some u.new_del_bm)

  module _ (laws : CodecLaws rb codecs)
      (marshals : (bm : rb.Bitmap) → (b : Bytes) × (codecs.marshal_binary bm ≡ some b)) where
    -- what stands under the key of an update is read back
    read_del_bitmap_lem :
        (s : bs.State) (u : SegDel rb) (b : Bytes)
        → (u.new_version == 0) ≡ false
        → codecs.marshal_binary u.new_del_bm ≡ some b
        → bs.get s (key_of rb index_name u) ≡ ok b
        → IsReadBack s u
    unfolding read_del_bitmap found_bitmap parse_bitmap
    read_del_bitmap_lem s u b later e stored =
        rw (later, stored, found_bitmap, parse_bitmap, laws.unmarshal-marshal u.new_del_bm b e) refl

    -- Where every bitmap is encoded, and the updates have different keys and versions behind the first, all
    -- bitmaps are written: `ReadDelBitmap` reads each of them back, and no other object has changed.
    pub write_all-IsReadBack :
        (s : bs.State) (us : List (SegDel rb))
        → AreApart rb index_name us
        → (s' : bs.State) × (write_all rb codecs bs {E = E} index_name s us ≡ ok s')
          × All (IsReadBack s') us
          × ((k : Bytes) → LeaveAlone rb index_name k us → bs.get s' k ≡ bs.get s k)
    unfolding write_all write_del_bitmap wrapped
    write_all-IsReadBack s [] apart = (s, refl, tt, λ k others. refl)
    write_all-IsReadBack s (u ∷ us) (later, alone, apart) =
        let (b, e) = marshals u.new_del_bm in
        let (s1, put_is) = bs.put_plain s (key_of rb index_name u) b in
        let (s', e', read, kept) = write_all-IsReadBack s1 us apart in
        let stored : bs.get s1 (key_of rb index_name u) ≡ ok b =
          bs.get-put s s1 (key_of rb index_name u) (key_of rb index_name u) b false put_is
          ∙ rw (=?_refl (key_of rb index_name u)) refl in
        (
          s',
          rw (write_del_bitmap, e, put_is) e',
          (read_del_bitmap_lem s' u b later e (kept (key_of rb index_name u) alone ∙ stored), read),
          λ k (other, others).
              kept k others
              ∙ bs.get-put s s1 (key_of rb index_name u) k b false put_is
              ∙ rw other refl,
        )
