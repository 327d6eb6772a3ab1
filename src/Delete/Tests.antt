-- ===== src/Delete/Tests.antt =====
-- The theorems on pkg/index/delete.go at a segment of two documents, of which one is deleted.
use Prim.{tt}
use mathlib.Core.Path.{subst}
use s3search.Base.{
  zero, suc, sym, Option, none, ◌∙◌, ◌=?◌, bytes_eq, Bool-cases, inl, inr, ℕ, ◌≡◌, refl, Bytes,
  List, [], ◌∷◌, ◌++◌, All, lookup, bytes_beq, to_le, from_le, some, Outcome, ok,
}
use s3search.Store.Mem.{MemStore, get}
use s3search.Store.Laws.{mem_blob_store}
use s3search.Manifest.Versions.{SegmentMeta}
use s3search.Manifest.Plain.{index, one_segment}
use s3search.Compactor.Garbage.{segment_key}
use s3search.Segment.Hotcache.{
  TermOffsets, FieldHotcache, Hotcache, HotcacheFieldInput, encode_hotcache, decode_hotcache,
}
use s3search.Segment.Footer.{Footer, decode_fields, encode_footer}
use s3search.Segment.Reader.{ReadError, term_reader, new_term_reader}
use s3search.Segment.Plain.{put_terms, fst_of, plain_codecs, plain-CodecLaws}
use s3search.Query.Plain.{lists}
use s3search.Query.Node.{Node, term}
use s3search.Query.Leaves.{Reader}
use s3search.Query.Matches.{Segment, IsServed, FieldServed, IsKnown}
use s3search.Index.Flush.{seg_suffix, hotcache_suffix}
use s3search.Delete.{SegDel, del_key, read_del_bitmap, write_all, collect_deletes}
use s3search.Delete.Collected.{IsSearchable, AreCollected, collect_deletes-AreCollected}
use s3search.Delete.Written.{LeaveAlone, AreApart, IsReadBack, write_all-IsReadBack}

abbrev meta : SegmentMeta
meta = record one_segment { del_version = 1 }

-- the term "a" of the field "t"
abbrev offsets_a : TermOffsets
offsets_a = record { post_off = 0; post_len = 3; pos_off = 3; pos_len = 6 }

abbrev field_input : HotcacheFieldInput
field_input = record {
  name = 116 ∷ [];
  fst_bytes = 1 ∷ put_terms ((97 ∷ [], 0) ∷ []);
  term_offsets = offsets_a ∷ [];
  doclens = [];
  avg_doclen = 0;
}

abbrev field_t : FieldHotcache
field_t = record {
  name = 116 ∷ [];
  fst = some (fst_of ((97 ∷ [], 0) ∷ []));
  term_table = offsets_a ∷ [];
  doclens = [];
  avg_doclen = 0;
}

abbrev hotcache : Hotcache
hotcache = record {
  fields = field_t ∷ [];
  docstore_idx = [];
  doc_count = 2;
  num_docstore_blocks = 0;
  field_index = (116 ∷ [], field_t) ∷ [];
}

abbrev hotcache_bytes : Bytes
hotcache_bytes = encode_hotcache (field_input ∷ []) [] 2 0

abbrev footer : Footer
footer = decode_fields []

-- the postings of "a" in both documents, its positions, and the footer
abbrev seg_bytes : Bytes
seg_bytes = 1 ∷ 0 ∷ 1 ∷ 0 ∷ 1 ∷ 0 ∷ 1 ∷ 1 ∷ 4 ∷ encode_footer footer

-- the two files of the segment, and a bitmap of deletes with the document 0
abbrev stored : MemStore
stored = record {
  objects =
      (segment_key index meta.id hotcache_suffix, hotcache_bytes)
      ∷ (segment_key index meta.id seg_suffix, seg_bytes)
      ∷ (del_key index meta.id 1, 1 ∷ 0 ∷ [])
      ∷ [];
  range_log = [];
}

-- the reader of the program
abbrev reader_at : MemStore → Bytes → Outcome ReadError (Reader lists ReadError)
reader_at s = new_term_reader mem_blob_store s lists plain_codecs

abbrev reader : Reader lists ReadError
reader =
    term_reader mem_blob_store stored lists plain_codecs
      (record { seg_key = segment_key index meta.id seg_suffix; footer = footer })

reader_is : reader_at stored (segment_key index meta.id seg_suffix) ≡ ok reader
unfolding new_term_reader s3search.Store.Mem.head lookup bytes_beq segment_key encode_footer to_le
    s3search.Store.Mem.get_range
reader_is = refl

abbrev segment : Segment lists
segment = record {
  postings = λ to. 0 ∷ 1 ∷ [];
  positions = λ to.
      record { doc_id = 0; positions = 0 ∷ [] } ∷ record { doc_id = 1; positions = 4 ∷ [] } ∷ [];
}

a-IsServed : IsServed lists reader segment offsets_a
unfolding term_reader s3search.Store.Mem.get_range lookup bytes_beq s3search.Postings.Varint.uvarint
    segment_key encode_footer to_le
a-IsServed = record { postings_read = refl; positions_read = refl }

field_t-FieldServed : FieldServed lists reader segment field_t
field_t-FieldServed zero to e = subst (IsServed lists reader segment) (cc e) a-IsServed
field_t-FieldServed (suc id) to e = absurd (cc e)

indexed-FieldServed :
    (field : Bytes) (fhc : FieldHotcache)
    → lookup field hotcache.field_index ≡ some fhc
    → FieldServed lists reader segment fhc
unfolding lookup
indexed-FieldServed field fhc e = elim (Bool-cases ((116 ∷ []) =? field)) [
  | inl same ↦
      let found : some field_t ≡ some fhc = sym (rw same refl) ∙ e in
      let same_field : field_t ≡ fhc = cc found in
      subst (FieldServed lists reader segment) same_field field_t-FieldServed
  | inr other ↦
      let missing : ◌≡◌ {A = Option FieldHotcache} none (some fhc) = sym (rw other refl) ∙ e in
      absurd (cc missing)
]

abbrev one_token : Bytes → List Bytes
one_token text = text ∷ []

abbrev query : Node
query = term (116 ∷ []) (97 ∷ [])

query-IsKnown : IsKnown query
unfolding IsKnown
query-IsKnown = tt

deleted_is :
    read_del_bitmap lists plain_codecs mem_blob_store {E = ReadError} index stored meta.id 1
    ≡ ok (some (0 ∷ []))
unfolding read_del_bitmap get lookup bytes_beq segment_key
deleted_is = refl

bytes_are :
    mem_blob_store.get stored (segment_key index meta.id hotcache_suffix) ≡ ok hotcache_bytes
unfolding get lookup bytes_beq segment_key
bytes_are = refl

hotcache_is : decode_hotcache plain_codecs.load_fst hotcache_bytes ≡ ok hotcache
unfolding decode_hotcache encode_hotcache to_le from_le bytes_beq s3search.Base.insert
hotcache_is = refl

meta-IsSearchable :
    IsSearchable lists plain_codecs mem_blob_store index reader_at one_token stored query meta
meta-IsSearchable = record {
  existing = some (0 ∷ []);
  existing_is = deleted_is;
  hc_data = hotcache_bytes;
  hc_data_is = bytes_are;
  hc = hotcache;
  hc_is = hotcache_is;
  r = reader;
  r_is = reader_is;
  seg = segment;
  serves = record { of_fields = (field_t-FieldServed, tt); of_index = indexed-FieldServed };
}

collect_deletes-AreCollected_example :
    (more : List (SegDel lists)) × (total : ℕ) × (collect_deletes lists plain_codecs mem_blob_store
        index reader_at one_token stored query
        (meta ∷ [])
        ([], 0)
      ≡ ok ([] ++ more, total))
    × AreCollected lists plain_codecs mem_blob_store index reader_at one_token stored query
        (meta ∷ [])
        more
collect_deletes-AreCollected_example =
    collect_deletes-AreCollected lists plain_codecs mem_blob_store index reader_at one_token stored
      query (meta ∷ []) [] 0 (meta-IsSearchable, tt) query-IsKnown

abbrev updates : List (SegDel lists)
updates =
    record { seg_id = 49 ∷ []; new_del_bm = 0 ∷ 1 ∷ []; new_version = 2 }
    ∷ record { seg_id = 50 ∷ []; new_del_bm = 3 ∷ []; new_version = 1 }
    ∷ []

updates-AreApart : AreApart lists index updates
unfolding del_key bytes_beq
updates-AreApart = (refl, (refl, tt), (refl, tt, tt))

write_all-IsReadBack_example :
    (s' : MemStore) × (write_all lists plain_codecs mem_blob_store {E = Bytes} index stored updates
      ≡ ok s')
    × All (IsReadBack lists plain_codecs mem_blob_store Bytes index s') updates
    × ((k : Bytes)
        → LeaveAlone lists index k updates
        → mem_blob_store.get s' k ≡ mem_blob_store.get stored k)
write_all-IsReadBack_example =
    write_all-IsReadBack lists plain_codecs mem_blob_store Bytes index plain-CodecLaws
      (λ bm. (1 ∷ bm, refl)) stored updates updates-AreApart
