-- ===== src/Segment/HotcacheRoundTrip.antt =====
-- `EncodeHotcache` of pkg/segment/hotcache.go, and then `DecodeHotcache`.
use s3search.Base.{
  ℕ, ◌*◌, ◌/◌, ◌≡◌, refl, ap, arith, Bytes, List, [], ◌∷◌, ◌++◌, append_assoc, length,
  length-append, take-append, drop-append, All, le→ltb_false, to_le, IsU32, IsU64, bytes_beq,
}
use s3search.Base.{Option, some, ok}
use s3search.Query.Bitmap.{Fst}
use s3search.Segment.Footer.{get_word-to_le, length-word_append}
use s3search.Segment.Hotcache.{
  TermOffsets, FieldHotcache, HotcacheFieldInput, write_blob, encode_offsets, encode_u32s,
  encode_field, encode_fields, encode_hotcache, get_u32, take_blob, get_blob, decode_offsets,
  decode_u32s, make_field, decode_field, decode_fields, index_fields, decode_body, decode_hotcache,
}

-- the words hold what their Go types can
pub record IsTermOffsets (to : TermOffsets) : Type 0 where
  pub post_off : IsU64 to.post_off
  pub post_len : IsU64 to.post_len
  pub pos_off : IsU64 to.pos_off
  pub pos_len : IsU64 to.pos_len

get_u32-to_le : (v : ℕ) (rest : Bytes) → IsU32 v → get_u32 (to_le 4 v ++ rest) ≡ ok (v, rest)
unfolding get_u32
get_u32-to_le v rest h =
    rw (le→ltb_false (length (to_le 4 v ++ rest)) 4 (omega (arith, length-word_append 4 v rest)))
      (ap ok (get_word-to_le 4 v rest h))

get_blob-write_blob :
    (blob rest : Bytes) → IsU32 (length blob) → get_blob (write_blob blob ++ rest) ≡ ok (blob, rest)
unfolding get_blob write_blob take_blob
get_blob-write_blob blob rest h =
    rw
      (
        append_assoc (to_le 4 (length blob)) blob rest,
        get_u32-to_le (length blob) (blob ++ rest) h,
        le→ltb_false (length (blob ++ rest)) (length blob) (omega (arith, length-append blob rest)),
        take-append (length blob) blob rest refl,
        drop-append (length blob) blob rest refl,
      )
      refl

pub length-encode_offsets : (tos : List TermOffsets) → length (encode_offsets tos) ≡ 32 * length tos
unfolding encode_offsets
length-encode_offsets [] = refl
length-encode_offsets (to ∷ tos) =
    simp length-word_append (omega (arith, length-encode_offsets tos))

pub length-encode_u32s : (vs : List ℕ) → length (encode_u32s vs) ≡ 4 * length vs
unfolding encode_u32s
length-encode_u32s [] = refl
length-encode_u32s (v ∷ vs) =
    omega (arith, length-word_append 4 v (encode_u32s vs), length-encode_u32s vs)

decode-encode_offsets :
    (tos : List TermOffsets)
    → All IsTermOffsets tos
    → decode_offsets (length tos) (encode_offsets tos) ≡ tos
unfolding decode_offsets encode_offsets
decode-encode_offsets [] h = refl
decode-encode_offsets (to ∷ tos) (f, h) =
    rw
      (
        get_word-to_le 8 to.post_off _ f.post_off,
        get_word-to_le 8 to.post_len _ f.post_len,
        get_word-to_le 8 to.pos_off _ f.pos_off,
        get_word-to_le 8 to.pos_len _ f.pos_len,
        decode-encode_offsets tos h,
      )
      refl

decode-encode_u32s : (vs : List ℕ) → All IsU32 vs → decode_u32s (length vs) (encode_u32s vs) ≡ vs
unfolding decode_u32s encode_u32s
decode-encode_u32s [] h = refl
decode-encode_u32s (v ∷ vs) (f, h) = rw (get_word-to_le 4 v _ f, decode-encode_u32s vs h) refl

module _ (load_fst : Bytes → Option Fst) where
  -- A field's data fit the lengths that are written, and its map of terms can be loaded.
  pub record IsInput (f : HotcacheFieldInput) : Type 0 where
    pub name_fits : IsU32 (length f.name)
    pub fst_fits : IsU32 (length f.fst_bytes)
    pub table_fits : IsU32 (32 * length f.term_offsets)
    pub doclens_fit : IsU32 (4 * length f.doclens)
    pub offsets : All IsTermOffsets f.term_offsets
    pub doclens : All IsU32 f.doclens
    pub avg : IsU32 f.avg_doclen
    pub fst : Fst
    pub loads : load_fst f.fst_bytes ≡ some fst

  -- the field as it is loaded
  abbrev pub loaded : (f : HotcacheFieldInput) → IsInput f → FieldHotcache
  loaded f h = record {
    name = f.name;
    fst = some h.fst;
    term_table = f.term_offsets;
    doclens = f.doclens;
    avg_doclen = f.avg_doclen;
  }

  abbrev pub all_loaded : (fs : List HotcacheFieldInput) → All IsInput fs → List FieldHotcache
  all_loaded [] h = []
  all_loaded (f ∷ fs) (hf, h) = loaded f hf ∷ all_loaded fs h

  make_field-loaded :
      (f : HotcacheFieldInput) (h : IsInput f)
      → make_field load_fst f.name f.fst_bytes
          (encode_offsets f.term_offsets)
          (encode_u32s f.doclens)
          f.avg_doclen
        ≡ ok (loaded f h)
  unfolding make_field
  make_field-loaded f h =
      rw
        (
          h.loads,
          make_field,
          terms,
          lengths,
          decode-encode_offsets f.term_offsets h.offsets,
          decode-encode_u32s f.doclens h.doclens,
        )
        refl
    where
      terms : length (encode_offsets f.term_offsets) / 32 ≡ length f.term_offsets
      terms = omega (arith, length-encode_offsets f.term_offsets)

      lengths : length (encode_u32s f.doclens) / 4 ≡ length f.doclens
      lengths = omega (arith, length-encode_u32s f.doclens)

  decode-encode_field :
      (f : HotcacheFieldInput) (rest : Bytes) (h : IsInput f)
      → decode_field load_fst (encode_field f ++ rest) ≡ ok (loaded f h, rest)
  unfolding decode_field encode_field
  decode-encode_field f rest h =
      rw
        (
          append_assoc (write_blob f.name) _ rest,
          append_assoc (write_blob f.fst_bytes) _ rest,
          append_assoc (write_blob (encode_offsets f.term_offsets)) _ rest,
          append_assoc (write_blob (encode_u32s f.doclens)) _ rest,
          get_blob-write_blob f.name _ h.name_fits,
          get_blob-write_blob f.fst_bytes _ h.fst_fits,
          get_blob-write_blob (encode_offsets f.term_offsets) _ table,
          get_blob-write_blob (encode_u32s f.doclens) _ lengths,
          get_u32-to_le f.avg_doclen rest h.avg,
          make_field-loaded f h,
        )
        refl
    where
      table : IsU32 (length (encode_offsets f.term_offsets))
      table = rw (length-encode_offsets f.term_offsets) h.table_fits

      lengths : IsU32 (length (encode_u32s f.doclens))
      lengths = rw (length-encode_u32s f.doclens) h.doclens_fit

  decode-encode_fields :
      (fs : List HotcacheFieldInput) (h : All IsInput fs)
      → decode_fields load_fst (length fs) (encode_fields fs) ≡ ok (all_loaded fs h)
  unfolding decode_fields encode_fields
  decode-encode_fields [] h = refl
  decode-encode_fields (f ∷ fs) (hf, h) =
      rw (decode-encode_field f (encode_fields fs) hf, decode-encode_fields fs h) refl

  -- `DecodeHotcache` gives back, from what `EncodeHotcache` made of fields whose data fit the lengths that
  -- are written, the fields with their maps of terms loaded, the index of the documents, both counts,
  -- and the fields by their names.
  pub decode-encode_hotcache :
      (fs : List HotcacheFieldInput) (docstore_idx : Bytes) (doc_count num_docstore_blocks : ℕ)
      (h : All IsInput fs)
      → IsU32 (length fs)
      → IsU32 (length docstore_idx)
      → IsU32 doc_count
      → IsU32 num_docstore_blocks
      → decode_hotcache load_fst (encode_hotcache fs docstore_idx doc_count num_docstore_blocks)
        ≡ ok (record {
          fields = all_loaded fs h;
          docstore_idx = docstore_idx;
          doc_count = doc_count;
          num_docstore_blocks = num_docstore_blocks;
          field_index = index_fields load_fst (all_loaded fs h) [];
        })
  unfolding decode_hotcache encode_hotcache decode_body bytes_beq
  decode-encode_hotcache fs docstore_idx doc_count num_docstore_blocks h hf hi hd hb =
      rw
        (
          get_u32-to_le 1 _ (omega arith),
          get_u32-to_le doc_count _ hd,
          get_u32-to_le num_docstore_blocks _ hb,
          get_u32-to_le (length fs) _ hf,
          get_blob-write_blob docstore_idx _ hi,
          decode-encode_fields fs h,
        )
        refl
