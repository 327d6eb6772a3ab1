-- ===== src/Segment/ServedTests.antt =====
-- The theorem on what was built and is served, at a segment of one document with two terms.
use Prim.{tt}
use s3search.Base.{
  ◌≡◌, refl, arith, [], ◌∷◌, length, lookup, bytes_eq, some, Outcome, ok, bytes_beq, sort_strings,
  bytes_leb, to_le,
}
use s3search.Store.Mem.{MemStore, get}
use s3search.Store.Laws.{mem_blob_store}
use s3search.Docstore.{Writer}
use s3search.Postings.Varint.{put_uvarint}
use s3search.Postings.Positions.{delta}
use s3search.Query.Plain.{lists}
use s3search.Segment.Footer.{decode_fields}
use s3search.Segment.Accumulator.{FieldAccumulator}
use s3search.Segment.Build.{BuildError, BuildResult, build}
use s3search.Segment.Reader.{SegmentReader}
use s3search.Segment.Served.{Serves, AreFields, build-Serves}
use s3search.Segment.Plain.{plain_codecs, plain-CodecLaws}

-- the field "t" with the terms "a" and "b" in document 0
abbrev field_t : FieldAccumulator lists
field_t = record {
  name = 116 ∷ [];
  posting_lists = (97 ∷ [], 0 ∷ []) ∷ (98 ∷ [], 0 ∷ []) ∷ [];
  positions = (97 ∷ [], (0, 0 ∷ []) ∷ []) ∷ (98 ∷ [], (0, 1 ∷ []) ∷ []) ∷ [];
  doclens = 2 ∷ [];
}

abbrev one_doc : Writer
one_doc = record {
  blocks = [];
  index = record { block = 0; offset = 0 } ∷ [];
  cur_buf = 2 ∷ 0 ∷ 0 ∷ 0 ∷ 123 ∷ 125 ∷ [];
}

abbrev built : Outcome BuildError BuildResult
built = build lists plain_codecs (field_t ∷ []) one_doc 1

abbrev result_of : Outcome BuildError BuildResult → BuildResult
result_of (ok r) = r
result_of _ = record { seg_bytes = []; hotcache_bytes = []; doc_count = 0 }

abbrev stored : MemStore
stored = record { objects = (107 ∷ [], (result_of built).seg_bytes) ∷ []; range_log = [] }

abbrev reader : SegmentReader
reader = record { seg_key = 107 ∷ []; footer = decode_fields [] }

builds : built ≡ ok (result_of built)
unfolding build sort_strings bytes_leb
builds = refl

field_t-AreFields : AreFields lists plain_codecs (field_t ∷ [])
field_t-AreFields = record {
  distinct = ((λ same. refl, tt), tt);
  doclens = ((omega arith, tt), tt);
}

seg_size : length (result_of built).seg_bytes ≡ 176
unfolding build sort_strings bytes_leb lookup bytes_beq to_le put_uvarint delta
seg_size = refl

hotcache_size : length (result_of built).hotcache_bytes ≡ 128
unfolding build sort_strings bytes_leb lookup bytes_beq to_le put_uvarint delta
hotcache_size = refl

is_stored : mem_blob_store.get stored (107 ∷ []) ≡ ok (result_of built).seg_bytes
unfolding get lookup bytes_beq
is_stored = refl

second_term : lookup (98 ∷ []) field_t.posting_lists ≡ some (0 ∷ [])
unfolding lookup bytes_beq
second_term = refl

build-Serves_example :
    Serves lists plain_codecs mem_blob_store stored reader
      (result_of built).hotcache_bytes
      0
      (116 ∷ [])
      (98 ∷ [])
      (0 ∷ [])
build-Serves_example =
    build-Serves lists plain_codecs mem_blob_store stored reader (field_t ∷ []) one_doc 1
      (result_of built) 0 field_t (98 ∷ []) (0 ∷ []) plain-CodecLaws field_t-AreFields (omega arith)
      builds (omega (arith, seg_size)) (omega (arith, hotcache_size)) is_stored refl second_term
