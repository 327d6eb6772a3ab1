-- ===== src/Segment/Served.antt =====
-- pkg/segment/writer.go, hotcache.go and reader.go together: from what is built to what is read.
use Prim.{tt}
use s3search.Base.{
  ℕ, ◌+◌, ◌-◌, ◌%◌, ◌^◌, ◌<◌, ◌≡◌, refl, ap, ◌∙◌, arith, Bytes, List, [], ◌∷◌, ◌++◌, drop, length,
  All, get_elem?, lookup, bytes_eq, IsU32,
}
use s3search.Base.{some, ok, >>=-eq-ok}
use s3search.Store.Blob.{BlobStore}
use s3search.Docstore.{Writer, finalize, encode_index}
use s3search.Query.Bitmap.{Roaring}
use s3search.Query.Leaves.{or_new, lookup_term}
use s3search.Segment.Hotcache.{
  TermOffsets, FieldHotcache, Hotcache, HotcacheFieldInput, encode_fields, encode_hotcache,
  decode_hotcache,
}
use s3search.Segment.HotcacheRoundTrip.{IsInput, decode-encode_hotcache}
use s3search.Segment.Accumulator.{FieldAccumulator}
use s3search.Segment.Build.{
  Codecs, BuildResult, Sections, group_of, build_sections, hotcache_inputs, docstore_section,
  doclens_section, assemble, build,
}
use s3search.Segment.Placed.{IsPlaced, IsOnly, build_sections-ArePlaced}
use s3search.Segment.Found.{All-get, contains-keys_of, build_sections-own}
use s3search.Segment.Ranges.{CodecLaws, assemble_front, get_postings-assemble}
use s3search.Segment.FieldInput.{lookup_term-found}
use s3search.Segment.Inputs.{
  Paired, hotcache_inputs-Paired, IsReady, encode_fields-FitsIn, length-encode_fields-ge,
  length-encode_hotcache, Paired-IsInput, Paired-get, all_loaded-IsLoaded,
}
use s3search.Segment.Reader.{SegmentReader, get_postings}

abbrev pub no_sections : Sections
no_sections = record { post_buf = []; pos_buf = []; term_records = [] }

module _ (rb : Roaring) (codecs : Codecs rb) where
  -- The parts of a segment that was built.
  record Parts (fields : List (FieldAccumulator rb)) (ds : Writer) (n : ℕ) (result : BuildResult)
      : Type 0 where
    sec : Sections
    inputs : List HotcacheFieldInput
    sections : build_sections rb codecs fields no_sections ≡ ok sec
    all_inputs :
        hotcache_inputs rb codecs 8 (8 + length sec.post_buf) sec.term_records fields ≡ ok inputs
    seg_is :
        result.seg_bytes
        ≡ assemble rb codecs sec
            (docstore_section (finalize codecs.zstd ds).0)
            (doclens_section rb codecs fields)
            n
    hotcache_is :
        result.hotcache_bytes
        ≡ encode_hotcache inputs
            (encode_index (finalize codecs.zstd ds).1)
            n
            (length (finalize codecs.zstd ds).0 % 2 ^ 32)

  build-Parts :
      (fields : List (FieldAccumulator rb)) (ds : Writer) (n : ℕ) (result : BuildResult)
      → build rb codecs fields ds n ≡ ok result
      → Parts fields ds n result
  unfolding build
  build-Parts fields ds n result e =
      let (sec, sections, e1) = >>=-eq-ok (build_sections rb codecs fields no_sections) _ e in
      let (inputs, all_inputs, e2) =
        >>=-eq-ok (hotcache_inputs rb codecs 8 (8 + length sec.post_buf) sec.term_records fields) _
          e1 in
      record {
        sec = sec;
        inputs = inputs;
        sections = sections;
        all_inputs = all_inputs;
        seg_is = cc e2;
        hotcache_is = cc e2;
      }

  -- A term is found in the hotcache that is loaded, and its postings are read.
  pub record Serves (bs : BlobStore) (s : bs.State) (r : SegmentReader) (hotcache_bytes : Bytes)
      (i : ℕ) (name t : Bytes) (pl : rb.Bitmap) : Type 0 where
    pub hc : Hotcache
    pub fhc : FieldHotcache
    pub to : TermOffsets
    pub decoded : decode_hotcache codecs.load_fst hotcache_bytes ≡ ok hc
    pub field_at : get_elem? hc.fields i ≡ some fhc
    pub name_is : fhc.name ≡ name
    pub found : lookup_term fhc t ≡ some to
    pub read : get_postings bs s rb codecs r to ≡ ok pl

  -- fields of different names, with lengths that are uint32s
  pub record AreFields (fields : List (FieldAccumulator rb)) : Type 0 where
    pub distinct : All (λ fa. All (IsOnly rb codecs fa) fields) fields
    pub doclens : All (λ fa. All IsU32 fa.doclens) fields

  All-IsReady :
      (fas fields : List (FieldAccumulator rb)) (sec : Sections)
      → build_sections rb codecs fields no_sections ≡ ok sec
      → All (λ fa. All (IsOnly rb codecs fa) fields) fas
      → All (λ fa. All IsU32 fa.doclens) fas
      → All (IsReady rb codecs sec) fas
  All-IsReady [] fields sec e only small = tt
  All-IsReady (fa ∷ fas) fields sec e (o, only) (h, small) = (
    record {
      placed =
          build_sections-ArePlaced rb codecs fa fields no_sections sec o
            (record { placed = unfold group_of in tt }) e;
      doclens = h;
    },
    All-IsReady fas fields sec e only small,
  )

  -- Every term of every field that `Build` was given, if it gave a result, is found in the hotcache that
  -- `DecodeHotcache` makes of the result, in the field at the same place, and `GetPostings` with its
  -- offsets reads the field's posting list for the term from the segment's file. The fields have
  -- different names, and the files are shorter than 2 ^ 63 and 2 ^ 32 bytes.
  pub build-Serves :
      (bs : BlobStore) (s : bs.State) (r : SegmentReader) (fields : List (FieldAccumulator rb))
      (ds : Writer) (n : ℕ) (result : BuildResult) (i : ℕ) (fa : FieldAccumulator rb) (t : Bytes)
      (pl : rb.Bitmap)
      → CodecLaws rb codecs
      → AreFields fields
      → IsU32 n
      → build rb codecs fields ds n ≡ ok result
      → length result.seg_bytes < 2 ^ 63
      → length result.hotcache_bytes < 2 ^ 32
      → bs.get s r.seg_key ≡ ok result.seg_bytes
      → get_elem? fields i ≡ some fa
      → lookup t fa.posting_lists ≡ some pl
      → Serves bs s r result.hotcache_bytes i fa.name t pl
  build-Serves bs s r fields ds n result i fa t pl laws are small_n e small_seg small_hc stored at
        here =
      let (input, input_at, has_input) =
        Paired-get rb codecs 8 pos_base sec.term_records fields p.inputs i fa paired at in
      let l = all_loaded-IsLoaded codecs.load_fst p.inputs all_input i input input_at in
      let (f, loads, finds) = lookup_term-found rb codecs 8 pos_base fa sec input t laws has_input (
        build_sections-own rb codecs fa t i fields no_sections sec at
          (contains-keys_of t fa.posting_lists here) p.sections) in
      let same_map : l.map_of_terms ≡ f = cc (l.loads, loads) in
      let (k, tr, tr_at, is, found) = finds l.fhc (l.fst_is ∙ ap some same_map) l.table_is in
      record {
        hc = _;
        fhc = l.fhc;
        to = _;
        decoded =
            ap (decode_hotcache codecs.load_fst) p.hotcache_is
            ∙ decode-encode_hotcache codecs.load_fst p.inputs idx n (length blocks % 2 ^ 32)
                all_input (omega (arith, small_hc, sizes, length-encode_fields-ge p.inputs))
                (omega (arith, small_hc, sizes)) small_n (omega arith);
        field_at = l.at;
        name_is = l.name_is ∙ has_input.name_is;
        found = found;
        read =
            get_postings-assemble rb codecs bs s r fa sec tr (docstore_section blocks)
              (doclens_section rb codecs fields) n pos_base laws
              (All-get (IsPlaced rb codecs fa sec) (group_of fa.name sec.term_records) k
                (All-get (IsReady rb codecs sec) fields i ready at).placed.placed tr_at)
              (omega (arith, small_seg, ap length p.seg_is)) (stored ∙ ap ok p.seg_is)
            ∙ ap ok (
                ap (λ x. or_new rb (lookup x fa.posting_lists)) is
                ∙ ap (or_new rb) here
                ∙ unfold or_new in refl);
      }
    where
      p : Parts fields ds n result
      p = build-Parts fields ds n result e

      sec : Sections
      sec = p.sec

      pos_base : ℕ
      pos_base = 8 + length sec.post_buf

      blocks : List Bytes
      blocks = (finalize codecs.zstd ds).0

      idx : Bytes
      idx = encode_index (finalize codecs.zstd ds).1

      front :
          (rest : Bytes) × (drop 8 (
              assemble rb codecs sec (docstore_section blocks) (doclens_section rb codecs fields) n)
            ≡ sec.post_buf ++ (sec.pos_buf ++ rest))
          × (length (
                assemble rb codecs sec
                  (docstore_section blocks)
                  (doclens_section rb codecs fields)
                  n)
              ≡ 8 + (length sec.post_buf + (length sec.pos_buf + length rest)))
      front =
          assemble_front rb codecs sec (docstore_section blocks) (doclens_section rb codecs fields)
            n

      sizes : length result.hotcache_bytes ≡ 24 + (length idx + length (encode_fields p.inputs))
      sizes =
          ap length p.hotcache_is ∙ length-encode_hotcache p.inputs idx n (length blocks % 2 ^ 32)

      paired : Paired rb codecs 8 pos_base sec.term_records fields p.inputs
      paired =
          hotcache_inputs-Paired rb codecs 8 pos_base sec.term_records fields p.inputs p.all_inputs

      ready : All (IsReady rb codecs sec) fields
      ready = All-IsReady fields fields sec p.sections are.distinct are.doclens

      all_input : All (IsInput codecs.load_fst) p.inputs
      all_input =
          Paired-IsInput rb codecs sec pos_base fields p.inputs laws
            (omega (arith, small_seg, ap length p.seg_is, front.2))
            (omega (arith, small_seg, ap length p.seg_is, front.2)) paired ready
            (encode_fields-FitsIn (2 ^ 32 - 1) p.inputs (omega (arith, small_hc, sizes)))
