-- ===== src/Query/Tests.antt =====
-- The theorems on pkg/query/exec.go at a segment with one field and two terms, with lists for bitmaps.
use Prim.{tt}
use s3search.Base.{
  ℕ, ◌≡◌, refl, arith, true, ◌&&◌, not, Bytes, List, [], ◌∷◌, Option, none, some, ok,
}
use s3search.Base.{◌==◌, contains, nat_eq, bytes_beq, if◌then◌else◌, lookup, ◌↔◌}
use s3search.Segment.Hotcache.{FieldHotcache, Hotcache, TermOffsets}
use s3search.Query.Plain.{lists}
use s3search.Query.Node.{Node, term, phrase, bool, nil, cons}
use s3search.Query.Leaves.{Reader, TermData, phrase_match, positions_of}
use s3search.Query.Exec.{search_doc_ids}
use mathlib.Core.Path.{subst}
use s3search.Base.{sym, ◌∙◌, zero, suc, Bool-cases, inl, inr, ◌=?◌, bytes_eq}
use s3search.Store.Mem.{MemStore}
use s3search.Store.Laws.{mem_blob_store}
use s3search.Segment.Footer.{decode_fields}
use s3search.Segment.Plain.{plain_codecs}
use s3search.Segment.Reader.{ReadError, term_reader}
use s3search.Query.Matches.{Segment, IsServed, FieldServed, Serves, IsKnown, matches}
use s3search.Query.Answers.{Answered, eval_bitmap_lem}
use s3search.Query.Deleted.{search_doc_ids_lem}
use s3search.Query.Adjacent.{StandFrom, phrase_match_lem}

-- the terms "a" and "b" in the file below
abbrev offsets_a : TermOffsets
offsets_a = record { post_off = 0; post_len = 3; pos_off = 6; pos_len = 6 }

abbrev offsets_b : TermOffsets
offsets_b = record { post_off = 3; post_len = 3; pos_off = 12; pos_len = 7 }

abbrev term_id : Bytes → Option ℕ
term_id t = if bytes_beq t (97 ∷ []) then some 0 else if bytes_beq t (98 ∷ []) then some 1 else none

abbrev body : FieldHotcache
body = record {
  name = 116 ∷ [];
  fst = some (record { get = term_id; iterator = λ start. (97 ∷ [], 0) ∷ (98 ∷ [], 1) ∷ [] });
  term_table = offsets_a ∷ offsets_b ∷ [];
  doclens = [];
  avg_doclen = 0;
}

abbrev hotcache : Hotcache
hotcache = record {
  fields = body ∷ [];
  docstore_idx = [];
  doc_count = 3;
  num_docstore_blocks = 0;
  field_index = (116 ∷ [], body) ∷ [];
}

-- "a" stands in the documents 0 and 1, and "b" in 1 and 2
abbrev segment : Segment lists
segment = record {
  postings = λ to. if to.post_off == 0 then 0 ∷ 1 ∷ [] else 1 ∷ 2 ∷ [];
  positions = λ to.
      if to.post_off == 0
      then record { doc_id = 0; positions = 0 ∷ [] }
        ∷ record { doc_id = 1; positions = 4 ∷ [] }
        ∷ []
      else record { doc_id = 1; positions = 5 ∷ 9 ∷ [] }
        ∷ record { doc_id = 2; positions = 0 ∷ [] }
        ∷ [];
}

-- the postings of both terms, and then their positions
abbrev seg_file : Bytes
seg_file = 1 ∷ 0 ∷ 1 ∷ 1 ∷ 1 ∷ 2 ∷ 0 ∷ 1 ∷ 0 ∷ 1 ∷ 1 ∷ 4 ∷ 1 ∷ 2 ∷ 5 ∷ 4 ∷ 2 ∷ 1 ∷ 0 ∷ []

abbrev stored : MemStore
stored = record { objects = (107 ∷ [], seg_file) ∷ []; range_log = [] }

abbrev reader : Reader lists ReadError
reader =
    term_reader mem_blob_store stored lists plain_codecs
      (record { seg_key = 107 ∷ []; footer = decode_fields [] })

a-IsServed : IsServed lists reader segment offsets_a
unfolding term_reader s3search.Store.Mem.get_range lookup bytes_beq s3search.Postings.Varint.uvarint
a-IsServed = record { postings_read = refl; positions_read = refl }

b-IsServed : IsServed lists reader segment offsets_b
unfolding term_reader s3search.Store.Mem.get_range lookup bytes_beq s3search.Postings.Varint.uvarint
b-IsServed = record { postings_read = refl; positions_read = refl }

body-FieldServed : FieldServed lists reader segment body
body-FieldServed zero to e = subst (IsServed lists reader segment) (cc e) a-IsServed
body-FieldServed (suc zero) to e = subst (IsServed lists reader segment) (cc e) b-IsServed
body-FieldServed (suc (suc id)) to e = absurd (cc e)

indexed-FieldServed :
    (field : Bytes) (fhc : FieldHotcache)
    → lookup field hotcache.field_index ≡ some fhc
    → FieldServed lists reader segment fhc
unfolding lookup
indexed-FieldServed field fhc e = elim (Bool-cases ((116 ∷ []) =? field)) [
  | inl same ↦
      let found : some body ≡ some fhc = sym (rw same refl) ∙ e in
      let same_field : body ≡ fhc = cc found in
      subst (FieldServed lists reader segment) same_field body-FieldServed
  | inr other ↦
      let missing : ◌≡◌ {A = Option FieldHotcache} none (some fhc) = sym (rw other refl) ∙ e in
      absurd (cc missing)
]

reader-Serves : Serves lists reader segment hotcache
reader-Serves = record { of_fields = (body-FieldServed, tt); of_index = indexed-FieldServed }

-- the phrase "a b", and not "c"
abbrev query : Node
query =
    bool (cons (phrase (116 ∷ []) ((97 ∷ []) ∷ (98 ∷ []) ∷ [])) nil) nil
      (cons (term (116 ∷ []) (99 ∷ [])) nil) nil

query-IsKnown : IsKnown query
unfolding IsKnown
query-IsKnown = ((tt, tt), tt, (tt, tt), tt)

abbrev one_token : Bytes → List Bytes
one_token text = text ∷ []

eval_bitmap_example : Answered lists reader segment hotcache reader-Serves one_token query
eval_bitmap_example =
    eval_bitmap_lem lists reader segment hotcache reader-Serves one_token query query-IsKnown

search_doc_ids_example :
    (bm : List ℕ) × (search_doc_ids lists reader hotcache one_token query (some (0 ∷ [])) ≡ ok bm)
    × ((d : ℕ)
        → contains d bm
          ≡ (matches lists segment hotcache one_token d query && not (contains d (0 ∷ []))))
search_doc_ids_example =
    search_doc_ids_lem lists reader segment hotcache one_token query (some (0 ∷ [])) reader-Serves
      query-IsKnown

abbrev data_a : TermData lists
data_a = record { pl = 1 ∷ []; pos = (1, 4 ∷ []) ∷ [] }

abbrev data_b : TermData lists
data_b = record { pl = 1 ∷ []; pos = (1, 5 ∷ 9 ∷ []) ∷ [] }

phrase_match_example : (phrase_match lists 1 (data_a ∷ data_b ∷ []) ≡ true) ↔ (
    (start : ℕ) × (contains start (positions_of lists data_a 1) ≡ true)
    × StandFrom lists 1 start 1 (data_b ∷ []))
phrase_match_example =
    phrase_match_lem lists 1 data_a (data_b ∷ [])
      (unfold positions_of lookup in ((omega arith, tt), tt))
