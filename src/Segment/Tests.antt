-- ===== src/Segment/Tests.antt =====
-- The theorems on pkg/segment/format.go and hotcache.go at small data.
use Prim.{tt}
use s3search.Base.{
  ◌≡◌, refl, arith, Bytes, [], ◌∷◌, ◌++◌, length, drop, ok, Option, none, some, bytes_beq,
  if◌then◌else◌,
}
use s3search.Query.Bitmap.{Fst}
use s3search.Segment.Hotcache.{HotcacheFieldInput, encode_hotcache, decode_hotcache, index_fields}
use s3search.Segment.HotcacheRoundTrip.{IsInput, all_loaded, decode-encode_hotcache}
use s3search.Segment.Footer.{
  Footer, IsFooter, magic, encode_footer, decode_footer, decode-encode_footer, encode_footer_shape,
}

abbrev small_footer : Footer
small_footer = record {
  postings_offset = 0;
  postings_len = 40;
  positions_offset = 40;
  positions_len = 20;
  docstore_offset = 60;
  docstore_len = 300;
  doclens_offset = 360;
  doclens_len = 12;
  doc_count = 3;
}

small_footer-IsFooter : IsFooter small_footer
small_footer-IsFooter = record {
  postings_offset = omega arith;
  postings_len = omega arith;
  positions_offset = omega arith;
  positions_len = omega arith;
  docstore_offset = omega arith;
  docstore_len = omega arith;
  doclens_offset = omega arith;
  doclens_len = omega arith;
  doc_count = omega arith;
}

decode-encode_footer_example :
    decode_footer ((1 ∷ 2 ∷ []) ++ encode_footer small_footer) ≡ ok small_footer
decode-encode_footer_example = decode-encode_footer small_footer (1 ∷ 2 ∷ []) small_footer-IsFooter

encode_footer_shape_example :
    (length (encode_footer small_footer) ≡ 128) × (drop 124 (encode_footer small_footer) ≡ magic)
encode_footer_shape_example = encode_footer_shape small_footer

-- a map of the one term "a", whatever bytes it is loaded from
abbrev one_term : Fst
one_term = record {
  get = λ t. if bytes_beq t (97 ∷ []) then some 0 else none;
  iterator = λ start. (97 ∷ [], 0) ∷ [];
}

abbrev load_one : Bytes → Option Fst
load_one b = some one_term

-- the field "t" of two documents
abbrev one_input : HotcacheFieldInput
one_input = record {
  name = 116 ∷ [];
  fst_bytes = 1 ∷ 2 ∷ 3 ∷ [];
  term_offsets = record { post_off = 8; post_len = 2; pos_off = 10; pos_len = 4 } ∷ [];
  doclens = 3 ∷ 1 ∷ [];
  avg_doclen = 1073741824;
}

one_input-IsInput : IsInput load_one one_input
one_input-IsInput = record {
  name_fits = omega arith;
  fst_fits = omega arith;
  table_fits = omega arith;
  doclens_fit = omega arith;
  offsets = (
    record {
      post_off = omega arith;
      post_len = omega arith;
      pos_off = omega arith;
      pos_len = omega arith;
    },
    tt,
  );
  doclens = (omega arith, (omega arith, tt));
  avg = omega arith;
  fst = one_term;
  loads = refl;
}

decode-encode_hotcache_example :
    decode_hotcache load_one (encode_hotcache (one_input ∷ []) (7 ∷ 7 ∷ []) 2 1)
    ≡ ok (record {
      fields = all_loaded load_one (one_input ∷ []) (one_input-IsInput, tt);
      docstore_idx = 7 ∷ 7 ∷ [];
      doc_count = 2;
      num_docstore_blocks = 1;
      field_index =
          index_fields load_one (all_loaded load_one (one_input ∷ []) (one_input-IsInput, tt)) [];
    })
decode-encode_hotcache_example =
    decode-encode_hotcache load_one (one_input ∷ []) (7 ∷ 7 ∷ []) 2 1 (one_input-IsInput, tt)
      (omega arith) (omega arith) (omega arith) (omega arith)
