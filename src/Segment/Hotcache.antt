-- ===== src/Segment/Hotcache.antt =====
-- pkg/segment/hotcache.go: the hotcache of a segment, its encoding and its decoding. A float32 stands as
-- its bits.
use s3search.Base.{
  ℕ, zero, suc, ◌/◌, Bytes, List, [], ◌∷◌, ◌++◌, length, take, drop, ltb, if◌then◌else◌, to_le,
  insert, bytes_eq, bytes_beq,
}
use s3search.Base.{Option, none, some, Outcome, ok, err, panic, ◌>>=◌}
use s3search.Query.Bitmap.{Fst}
use s3search.Segment.Footer.{get_word}

pub record TermOffsets : Type 0 where
  pub post_off : ℕ
  pub post_len : ℕ
  pub pos_off : ℕ
  pub pos_len : ℕ

pub record FieldHotcache : Type 0 where
  pub name : Bytes
  pub fst : Option Fst
  pub term_table : List TermOffsets
  pub doclens : List ℕ
  pub avg_doclen : ℕ

pub record Hotcache : Type 0 where
  pub fields : List FieldHotcache
  pub docstore_idx : Bytes
  pub doc_count : ℕ
  pub num_docstore_blocks : ℕ
  pub field_index : List (Bytes × FieldHotcache)

pub record HotcacheFieldInput : Type 0 where
  pub name : Bytes
  pub fst_bytes : Bytes
  pub term_offsets : List TermOffsets
  pub doclens : List ℕ
  pub avg_doclen : ℕ

pub data Error : Type 0 where
  bad_magic bad_fst : Error

-- "S3HC"
abbrev pub hotcache_magic : Bytes
hotcache_magic = 83 ∷ 51 ∷ 72 ∷ 67 ∷ []

unfoldable pub write_blob : Bytes → Bytes
write_blob blob = to_le 4 (length blob) ++ blob

unfoldable pub encode_offsets : List TermOffsets → Bytes
encode_offsets [] = []
encode_offsets (to ∷ tos) =
    to_le 8 to.post_off
    ++ (to_le 8 to.post_len ++ (to_le 8 to.pos_off ++ (to_le 8 to.pos_len ++ encode_offsets tos)))

unfoldable pub encode_u32s : List ℕ → Bytes
encode_u32s [] = []
encode_u32s (v ∷ vs) = to_le 4 v ++ encode_u32s vs

unfoldable pub encode_field : HotcacheFieldInput → Bytes
unfolding write_blob encode_offsets encode_u32s
encode_field f =
    write_blob f.name
    ++ (write_blob f.fst_bytes
        ++ (write_blob (encode_offsets f.term_offsets)
            ++ (write_blob (encode_u32s f.doclens) ++ to_le 4 f.avg_doclen)))

unfoldable pub encode_fields : List HotcacheFieldInput → Bytes
unfolding encode_field
encode_fields [] = []
encode_fields (f ∷ fs) = encode_field f ++ encode_fields fs

-- It gives no error.
unfoldable pub encode_hotcache : List HotcacheFieldInput → Bytes → ℕ → ℕ → Bytes
unfolding encode_fields write_blob
encode_hotcache fields docstore_idx doc_count num_docstore_blocks =
    hotcache_magic
    ++ (to_le 4 1
        ++ (to_le 4 doc_count
            ++ (to_le 4 num_docstore_blocks
                ++ (to_le 4 (length fields) ++ (write_blob docstore_idx ++ encode_fields fields)))))

-- `getU32`: what it reads, and what is left of `data`. It panics at the end of the data, where the slice's
-- capacity is taken to end too.
unfoldable pub get_u32 : Bytes → Outcome Error (ℕ × Bytes)
unfolding get_word
get_u32 bytes = if ltb (length bytes) 4 then panic else ok (get_word 4 bytes)

unfoldable pub take_blob : ℕ × Bytes → Outcome Error (Bytes × Bytes)
take_blob (len, rest) = if ltb (length rest) len then panic else ok (take len rest, drop len rest)

unfoldable pub get_blob : Bytes → Outcome Error (Bytes × Bytes)
unfolding get_u32 take_blob
get_blob bytes = get_u32 bytes >>= take_blob

-- the table of `n` terms
unfoldable pub decode_offsets : ℕ → Bytes → List TermOffsets
decode_offsets zero t0 = []
decode_offsets (suc n) t0 =
    let (post_off, t1) = get_word 8 t0 in
    let (post_len, t2) = get_word 8 t1 in
    let (pos_off, t3) = get_word 8 t2 in
    let (pos_len, t4) = get_word 8 t3 in
    record { post_off = post_off; post_len = post_len; pos_off = pos_off; pos_len = pos_len }
    ∷ decode_offsets n t4

unfoldable pub decode_u32s : ℕ → Bytes → List ℕ
decode_u32s zero t0 = []
decode_u32s (suc n) t0 = let (v, t1) = get_word 4 t0 in v ∷ decode_u32s n t1

module _ (load_fst : Bytes → Option Fst) where
  unfoldable pub make_field : Bytes → Bytes → Bytes → Bytes → ℕ → Outcome Error FieldHotcache
  unfolding decode_offsets decode_u32s
  make_field name fst_bytes tbl_bytes doclens_bytes avg_bits = elim (load_fst fst_bytes) [
    | none ↦ err bad_fst
    | some fst ↦ ok (record {
      name = name;
      fst = some fst;
      term_table = decode_offsets (length tbl_bytes / 32) tbl_bytes;
      doclens = decode_u32s (length doclens_bytes / 4) doclens_bytes;
      avg_doclen = avg_bits;
    })
  ]

  unfoldable pub decode_field : Bytes → Outcome Error (FieldHotcache × Bytes)
  unfolding get_blob get_u32 make_field
  decode_field t0 = do
    (name, t1) ← get_blob t0
    (fst_bytes, t2) ← get_blob t1
    (tbl_bytes, t3) ← get_blob t2
    (doclens_bytes, t4) ← get_blob t3
    (avg_bits, t5) ← get_u32 t4
    fhc ← make_field name fst_bytes tbl_bytes doclens_bytes avg_bits
    ok (fhc, t5)

  unfoldable pub decode_fields : ℕ → Bytes → Outcome Error (List FieldHotcache)
  unfolding decode_field
  decode_fields zero bytes = ok []
  decode_fields (suc n) bytes = do
    (fhc, rest) ← decode_field bytes
    fhcs ← decode_fields n rest
    ok (fhc ∷ fhcs)

  -- `fieldIndex`, where a later field replaces an earlier one of its name
  unfoldable pub index_fields :
      List FieldHotcache → List (Bytes × FieldHotcache) → List (Bytes × FieldHotcache)
  index_fields [] index = index
  index_fields (f ∷ fs) index = index_fields fs (insert f.name f index)

  unfoldable pub decode_body : Bytes → Outcome Error Hotcache
  unfolding get_u32 get_blob decode_fields index_fields
  decode_body t0 = do
    (version, t1) ← get_u32 t0
    (doc_count, t2) ← get_u32 t1
    (num_docstore_blocks, t3) ← get_u32 t2
    (num_fields, t4) ← get_u32 t3
    (docstore_idx, t5) ← get_blob t4
    fields ← decode_fields num_fields t5
    ok (record {
      fields = fields;
      docstore_idx = docstore_idx;
      doc_count = doc_count;
      num_docstore_blocks = num_docstore_blocks;
      field_index = index_fields fields [];
    })

  unfoldable pub decode_hotcache : Bytes → Outcome Error Hotcache
  unfolding decode_body
  decode_hotcache bytes =
      if bytes_beq (take 4 bytes) hotcache_magic then decode_body (drop 4 bytes) else err bad_magic
