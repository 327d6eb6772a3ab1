-- ===== src/Segment/Ranges.antt =====
-- The reads of pkg/segment/reader.go at the places where `Build` of pkg/segment/writer.go put the postings.

use s3search.Base.{
  ℕ, ◌+◌, ◌%◌, ◌^◌, ◌<◌, ◌≡◌, refl, sym, ap, ◌∙◌, arith, Bytes, List, ◌++◌, length, length-append,
  length-take, take, drop, drop-drop, false, lookup, bytes_eq, IsU32, to_le, ◌==◌, ==_ne,
}
use s3search.Base.{some, ok}
use s3search.Store.Blob.{BlobStore}
use s3search.Query.Bitmap.{Roaring, Fst}
use s3search.Query.Leaves.{or_new}
use s3search.Segment.Footer.{encode_footer}
use s3search.Segment.Accumulator.{FieldAccumulator}
use s3search.Segment.Build.{Codecs, TermRecord, Sections, offsets_of, make_footer, assemble}
use s3search.Segment.Placed.{take-drop-append, IsPlaced}
use s3search.Segment.Reader.{SegmentReader, reading, unmarshal, get_postings}

-- What roaring and vellum promise: a bitmap that was encoded is decoded again, from one byte or more; and
-- a map that was built of terms and ids is loaded again. A float32 has four bytes.
pub record CodecLaws (rb : Roaring) (codecs : Codecs rb) : Type 0 where
  pub unmarshal-marshal :
      (bm : rb.Bitmap) (bytes : Bytes)
      → codecs.marshal_binary bm ≡ some bytes
      → codecs.unmarshal_binary bytes ≡ some bm
  pub not_empty :
      (bm : rb.Bitmap) (bytes : Bytes) → codecs.marshal_binary bm ≡ some bytes → 0 < length bytes
  pub load-build :
      (terms : List (Bytes × ℕ)) (b : Bytes)
      → codecs.build_fst terms ≡ some b
      → (f : Fst) × (codecs.load_fst b ≡ some f) × ((t : Bytes) → f.get t ≡ lookup t terms)
  pub quotient_small : (a b : ℕ) → IsU32 (codecs.quotient_bits a b)

module _ (rb : Roaring) (codecs : Codecs rb) where
  -- the sections of postings and positions in the assembled file
  pub assemble_front :
      (sec : Sections) (ds dl : Bytes) (n : ℕ)
      → (rest : Bytes) × (drop 8 (assemble rb codecs sec ds dl n)
          ≡ sec.post_buf ++ (sec.pos_buf ++ rest))
        × (length (assemble rb codecs sec ds dl n)
            ≡ 8 + (length sec.post_buf + (length sec.pos_buf + length rest)))
  unfolding assemble to_le
  assemble_front sec ds dl n =
      let rest = ds ++ (dl ++ encode_footer (make_footer rb codecs sec ds dl n)) in
      (
        rest,
        refl,
        omega (
          arith,
          length-append sec.post_buf (sec.pos_buf ++ rest),
          length-append sec.pos_buf rest,
        ),
      )

  -- the postings of a record, read out of the assembled file
  pub get_postings-assemble :
      (bs : BlobStore) (s : bs.State) (r : SegmentReader) (fa : FieldAccumulator rb)
      (sec : Sections) (tr : TermRecord) (ds dl : Bytes) (n pos_base : ℕ)
      → CodecLaws rb codecs
      → IsPlaced rb codecs fa sec tr
      → length (assemble rb codecs sec ds dl n) < 2 ^ 63
      → bs.get s r.seg_key ≡ ok (assemble rb codecs sec ds dl n)
      → get_postings bs s rb codecs r (offsets_of 8 pos_base tr)
        ≡ ok (or_new rb (lookup tr.term fa.posting_lists))
  unfolding get_postings offsets_of reading
  get_postings-assemble bs s r fa sec tr ds dl n pos_base laws h small stored =
      rw (here, some_bytes, ranged, bytes_are, decoded) refl
    where
      front :
          (rest : Bytes) × (drop 8 (assemble rb codecs sec ds dl n)
            ≡ sec.post_buf ++ (sec.pos_buf ++ rest))
          × (length (assemble rb codecs sec ds dl n)
              ≡ 8 + (length sec.post_buf + (length sec.pos_buf + length rest)))
      front = assemble_front sec ds dl n

      here : (8 + tr.post_off) % 2 ^ 64 ≡ 8 + tr.post_off
      here = omega (arith, front.2, h.post_within, small)

      some_bytes : (tr.post_len == 0) ≡ false
      some_bytes = ==_ne tr.post_len 0 (λ e. omega (
        arith,
        e,
        laws.not_empty _ _ h.marshalled,
        length-take tr.post_len (drop tr.post_off sec.post_buf),
      ))

      ranged :
          bs.get_range s r.seg_key (8 + tr.post_off) tr.post_len
          ≡ ok (take tr.post_len (drop (8 + tr.post_off) (assemble rb codecs sec ds dl n)))
      ranged =
          bs.get_range_inside s r.seg_key (assemble rb codecs sec ds dl n) (8 + tr.post_off)
            tr.post_len stored (omega (arith, front.2, h.post_within))

      bytes_are :
          take tr.post_len (drop (8 + tr.post_off) (assemble rb codecs sec ds dl n))
          ≡ take tr.post_len (drop tr.post_off sec.post_buf)
      bytes_are =
          ap (take tr.post_len) (
            sym (drop-drop tr.post_off 8 (assemble rb codecs sec ds dl n))
            ∙ ap (drop tr.post_off) front.1)
          ∙ take-drop-append tr.post_len tr.post_off sec.post_buf (sec.pos_buf ++ front.0)
              h.post_within

      decoded :
          unmarshal bs s rb codecs (take tr.post_len (drop tr.post_off sec.post_buf))
          ≡ ok (or_new rb (lookup tr.term fa.posting_lists))
      decoded = unfold unmarshal in rw (laws.unmarshal-marshal _ _ h.marshalled, unmarshal) refl
