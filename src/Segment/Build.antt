-- ===== src/Segment/Build.antt =====
-- `Build` of pkg/segment/writer.go: the files of a segment from the accumulated postings and documents. Its
-- goroutines build one field each and share nothing but the first error.
use s3search.Base.{
  ℕ, suc, ◌+◌, ◌%◌, ◌^◌, Bytes, List, [], ◌∷◌, ◌++◌, length, map, lookup, bytes_eq, nat_eq,
  if◌then◌else◌, leb, ◌=?◌, ◌==◌, to_le, sort_strings,
}
use s3search.Base.{Option, none, some, Outcome, ok, err, ◌>>=◌}
use s3search.Postings.Positions.{PositionsEntry, encode_positions}
use s3search.Docstore.{Zstd, Writer, finalize, encode_index}
use s3search.Query.Bitmap.{Roaring, Fst}
use s3search.Query.Leaves.{or_nil, or_new}
use s3search.Segment.Footer.{Footer, magic, version, encode_footer}
use s3search.Segment.Hotcache.{TermOffsets, HotcacheFieldInput, encode_u32s, encode_hotcache}
use s3search.Segment.Accumulator.{DocPositions, FieldAccumulator, or_empty_map}

-- What the writer and the reader use of other modules: zstd; `MarshalBinary` and `UnmarshalBinary` of a
-- bitmap; vellum's builder and `Load`; and the bits of the float32 quotient of two numbers.
pub record Codecs (rb : Roaring) : Type 0 where
  pub zstd : Zstd
  pub marshal_binary : rb.Bitmap → Option Bytes
  pub unmarshal_binary : Bytes → Option rb.Bitmap
  pub build_fst : List (Bytes × ℕ) → Option Bytes
  pub load_fst : Bytes → Option Fst
  pub quotient_bits : ℕ → ℕ → ℕ

pub data BuildError : Type 0 where
  serialize_postings fst_failed : BuildError

pub record BuildResult : Type 0 where
  pub seg_bytes : Bytes
  pub hotcache_bytes : Bytes
  pub doc_count : ℕ

-- an ascending order of numbers, as `sort.Slice` makes it
unfoldable pub insert_number : ℕ → List ℕ → List ℕ
insert_number x [] = x ∷ []
insert_number x (y ∷ ys) = if leb x y then x ∷ y ∷ ys else y ∷ insert_number x ys

unfoldable pub sort_numbers : List ℕ → List ℕ
unfolding insert_number
sort_numbers [] = []
sort_numbers (x ∷ xs) = insert_number x (sort_numbers xs)

-- the keys of a map, in the order of its list
unfoldable pub keys_of {ℓ κ} : {K : Type κ} {V : Type ℓ} → List (K × V) → List K
keys_of [] = []
keys_of ((k, v) ∷ m) = k ∷ keys_of m

unfoldable pub entry_of : DocPositions → ℕ → PositionsEntry
unfolding or_nil sort_numbers
entry_of doc_pos doc_id = record {
  doc_id = doc_id;
  positions = sort_numbers (or_nil (lookup doc_id doc_pos));
}

unfoldable pub position_entries : DocPositions → List PositionsEntry
unfolding entry_of sort_numbers keys_of
position_entries doc_pos = map (entry_of doc_pos) (sort_numbers (keys_of doc_pos))

pub record TermRecord : Type 0 where
  pub field : Bytes
  pub term : Bytes
  pub post_off : ℕ
  pub post_len : ℕ
  pub pos_off : ℕ
  pub pos_len : ℕ

-- the buffers of the postings and the positions, with what was recorded of them
pub record Sections : Type 0 where
  pub post_buf : Bytes
  pub pos_buf : Bytes
  pub term_records : List TermRecord

unfoldable pub block_offsets : ℕ → List Bytes → Bytes
block_offsets cum_off [] = to_le 8 cum_off
block_offsets cum_off (blk ∷ blks) = to_le 8 cum_off ++ block_offsets (cum_off + length blk) blks

unfoldable pub concat : List Bytes → Bytes
concat [] = []
concat (b ∷ bs) = b ++ concat bs

-- the table of the offsets, and the compressed blocks
unfoldable pub docstore_section : List Bytes → Bytes
unfolding block_offsets concat
docstore_section blocks = block_offsets 0 blocks ++ concat blocks

-- The records of the field, in their order.
unfoldable pub group_of : Bytes → List TermRecord → List TermRecord
group_of name [] = []
group_of name (tr ∷ trs) =
    let rest = group_of name trs in if tr.field =? name then tr ∷ rest else rest

unfoldable pub offsets_of : ℕ → ℕ → TermRecord → TermOffsets
offsets_of post_base pos_base tr = record {
  post_off = (post_base + tr.post_off) % 2 ^ 64;
  post_len = tr.post_len;
  pos_off = (pos_base + tr.pos_off) % 2 ^ 64;
  pos_len = tr.pos_len;
}

-- the terms with their ids
unfoldable pub number_terms : ℕ → List TermRecord → List (Bytes × ℕ)
number_terms j [] = []
number_terms j (tr ∷ trs) = (tr.term, j) ∷ number_terms (suc j) trs

unfoldable pub sum : List ℕ → ℕ
sum [] = 0
sum (d ∷ ds) = d + sum ds

module _ (rb : Roaring) (codecs : Codecs rb) where
  -- the section of the lengths of documents
  unfoldable pub doclens_section : List (FieldAccumulator rb) → Bytes
  unfolding encode_u32s
  doclens_section [] = []
  doclens_section (fa ∷ fas) =
      (to_le 4 (length fa.doclens) ++ encode_u32s fa.doclens) ++ doclens_section fas

  -- the positions that go with a term
  unfoldable pub position_bytes : FieldAccumulator rb → Bytes → Bytes
  unfolding or_empty_map position_entries encode_positions
  position_bytes fa term =
      encode_positions (position_entries (or_empty_map (lookup term fa.positions)))

  unfoldable pub new_record : FieldAccumulator rb → Bytes → Bytes → Sections → TermRecord
  unfolding position_bytes
  new_record fa term pl_bytes sec = record {
    field = fa.name;
    term = term;
    post_off = length sec.post_buf;
    post_len = length pl_bytes;
    pos_off = length sec.pos_buf;
    pos_len = length (position_bytes fa term);
  }

  unfoldable pub record_term : FieldAccumulator rb → Bytes → Bytes → Sections → Sections
  unfolding position_bytes new_record
  record_term fa term pl_bytes sec = record {
    post_buf = sec.post_buf ++ pl_bytes;
    pos_buf = sec.pos_buf ++ position_bytes fa term;
    term_records = sec.term_records ++ new_record fa term pl_bytes sec ∷ [];
  }

  unfoldable pub add_term : FieldAccumulator rb → Bytes → Sections → Outcome BuildError Sections
  unfolding record_term or_new
  add_term fa term sec = elim (codecs.marshal_binary (or_new rb (lookup term fa.posting_lists))) [
    | none ↦ err serialize_postings
    | some pl_bytes ↦ ok (record_term fa term pl_bytes sec)
  ]

  unfoldable pub add_terms :
      FieldAccumulator rb → List Bytes → Sections → Outcome BuildError Sections
  unfolding add_term
  add_terms fa [] sec = ok sec
  add_terms fa (term ∷ terms) sec = add_term fa term sec >>= add_terms fa terms

  unfoldable pub build_sections :
      List (FieldAccumulator rb) → Sections → Outcome BuildError Sections
  unfolding add_terms keys_of
  build_sections [] sec = ok sec
  build_sections (fa ∷ fas) sec =
      add_terms fa (sort_strings (keys_of fa.posting_lists)) sec >>= build_sections fas

  unfoldable pub avg_doclen : List ℕ → ℕ
  unfolding sum
  avg_doclen dl = if length dl == 0 then 0 else codecs.quotient_bits (sum dl % 2 ^ 64) (length dl)

  unfoldable pub hotcache_input :
      ℕ → ℕ → List TermRecord → FieldAccumulator rb → Outcome BuildError HotcacheFieldInput
  unfolding group_of number_terms offsets_of avg_doclen
  hotcache_input post_base pos_base trs fa =
      elim (codecs.build_fst (number_terms 0 (group_of fa.name trs))) [
        | none ↦ err fst_failed
        | some fst_bytes ↦ ok (record {
          name = fa.name;
          fst_bytes = fst_bytes;
          term_offsets = map (offsets_of post_base pos_base) (group_of fa.name trs);
          doclens = fa.doclens;
          avg_doclen = avg_doclen fa.doclens;
        })
      ]

  unfoldable pub hotcache_inputs :
      ℕ
      → ℕ
      → List TermRecord
      → List (FieldAccumulator rb)
      → Outcome BuildError (List HotcacheFieldInput)
  unfolding hotcache_input
  hotcache_inputs post_base pos_base trs [] = ok []
  hotcache_inputs post_base pos_base trs (fa ∷ fas) = do
    input ← hotcache_input post_base pos_base trs fa
    inputs ← hotcache_inputs post_base pos_base trs fas
    ok (input ∷ inputs)

  unfoldable pub make_footer : Sections → Bytes → Bytes → ℕ → Footer
  make_footer sec ds dl doc_count =
      let post_base : ℕ = 8 in
      let pos_base = post_base + length sec.post_buf in
      let ds_base = pos_base + length sec.pos_buf in
      record {
        postings_offset = post_base;
        postings_len = length sec.post_buf;
        positions_offset = pos_base;
        positions_len = length sec.pos_buf;
        docstore_offset = ds_base;
        docstore_len = length ds;
        doclens_offset = ds_base + length ds;
        doclens_len = length dl;
        doc_count = doc_count;
      }

  -- the assembled .seg
  unfoldable pub assemble : Sections → Bytes → Bytes → ℕ → Bytes
  unfolding make_footer encode_footer
  assemble sec ds dl doc_count =
      magic
      ++ (to_le 4 version
          ++ (sec.post_buf
              ++ (sec.pos_buf ++ (ds ++ (dl ++ encode_footer (make_footer sec ds dl doc_count))))))

  unfoldable pub build : List (FieldAccumulator rb) → Writer → ℕ → Outcome BuildError BuildResult
  unfolding finalize build_sections hotcache_inputs docstore_section doclens_section assemble
      encode_hotcache encode_index
  build fields ds doc_count = do
    let (ds_blocks, ds_idx) = finalize codecs.zstd ds
    sec ← build_sections fields (record { post_buf = []; pos_buf = []; term_records = [] })
    inputs ← hotcache_inputs 8 (8 + length sec.post_buf) sec.term_records fields
    ok (record {
      seg_bytes = assemble sec (docstore_section ds_blocks) (doclens_section fields) doc_count;
      hotcache_bytes =
          encode_hotcache inputs (encode_index ds_idx) doc_count (length ds_blocks % 2 ^ 32);
      doc_count = doc_count;
    })
