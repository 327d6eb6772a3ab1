-- ===== src/Segment/Footer.antt =====
-- pkg/segment/format.go: the fixed-size tail of a .seg file.
use s3search.Base.{ℕ, ◌+◌, ◌-◌, ◌*◌, ◌^◌, ◌<◌, ◌≡◌, sym, ap, ◌∙◌, arith, Bytes, [], ◌∷◌, ◌++◌}
use s3search.Base.{length, length-append, take, drop, drop-append}
use s3search.Base.{replicate, to_le, from_le, length-to_le, from_le-to_le, take-to_le, drop-to_le}
use s3search.Base.{IsU32, IsU64, ltb, le→ltb_false, ◌=?◌, bytes_eq, Outcome, ok, err}
use s3search.Base.{if◌then◌else◌, drop-drop, bytes_beq}

-- "S3S1"
abbrev pub magic : Bytes
magic = 83 ∷ 51 ∷ 83 ∷ 49 ∷ []

abbrev pub version : ℕ
version = 1

abbrev pub footer_size : ℕ
footer_size = 128

pub record Footer : Type 0 where
  pub postings_offset : ℕ
  pub postings_len : ℕ
  pub positions_offset : ℕ
  pub positions_len : ℕ
  pub docstore_offset : ℕ
  pub docstore_len : ℕ
  pub doclens_offset : ℕ
  pub doclens_len : ℕ
  pub doc_count : ℕ

pub data Error : Type 0 where
  footer_too_short bad_footer_magic : Error

abbrev pub footer_pad : ℕ
footer_pad = footer_size - 8 * 8 - 4 - 4 - 4

-- what `EncodeFooter` writes behind the offsets
unfoldable pub footer_end : ℕ → Bytes
footer_end doc_count = to_le 4 doc_count ++ (replicate footer_pad 0 ++ (to_le 4 version ++ magic))

unfoldable pub encode_footer : Footer → Bytes
unfolding footer_end
encode_footer f =
    to_le 8 f.postings_offset
    ++ (to_le 8 f.postings_len
        ++ (to_le 8 f.positions_offset
            ++ (to_le 8 f.positions_len
                ++ (to_le 8 f.docstore_offset
                    ++ (to_le 8 f.docstore_len
                        ++ (to_le 8 f.doclens_offset
                            ++ (to_le 8 f.doclens_len ++ footer_end f.doc_count)))))))

-- `getU64` and `getU32`: the word at the offset, and what is behind it
unfoldable pub get_word : ℕ → Bytes → ℕ × Bytes
get_word k bytes = (from_le (take k bytes), drop k bytes)

unfoldable pub decode_fields : Bytes → Footer
decode_fields t0 =
    let (postings_offset, t1) = get_word 8 t0 in
    let (postings_len, t2) = get_word 8 t1 in
    let (positions_offset, t3) = get_word 8 t2 in
    let (positions_len, t4) = get_word 8 t3 in
    let (docstore_offset, t5) = get_word 8 t4 in
    let (docstore_len, t6) = get_word 8 t5 in
    let (doclens_offset, t7) = get_word 8 t6 in
    let (doclens_len, t8) = get_word 8 t7 in
    let (doc_count, t9) = get_word 4 t8 in
    record {
      postings_offset = postings_offset;
      postings_len = postings_len;
      positions_offset = positions_offset;
      positions_len = positions_len;
      docstore_offset = docstore_offset;
      docstore_len = docstore_len;
      doclens_offset = doclens_offset;
      doclens_len = doclens_len;
      doc_count = doc_count;
    }

unfoldable pub decode_footer : Bytes → Outcome Error Footer
decode_footer bytes =
    let tail = drop (length bytes - footer_size) bytes in
    if ltb (length bytes) footer_size
    then err footer_too_short
    else if drop (footer_size - 4) tail =? magic
    then ok (decode_fields tail)
    else err bad_footer_magic

-- The fields hold what their Go types can.
pub record IsFooter (f : Footer) : Type 0 where
  pub postings_offset : IsU64 f.postings_offset
  pub postings_len : IsU64 f.postings_len
  pub positions_offset : IsU64 f.positions_offset
  pub positions_len : IsU64 f.positions_len
  pub docstore_offset : IsU64 f.docstore_offset
  pub docstore_len : IsU64 f.docstore_len
  pub doclens_offset : IsU64 f.doclens_offset
  pub doclens_len : IsU64 f.doclens_len
  pub doc_count : IsU32 f.doc_count

pub get_word-to_le :
    (k v : ℕ) (rest : Bytes) → v < 256 ^ k → get_word k (to_le k v ++ rest) ≡ (v, rest)
unfolding get_word
get_word-to_le k v rest h = rw (take-to_le k v rest, drop-to_le k v rest, from_le-to_le k v h)

pub length-word_append : (k v : ℕ) (rest : Bytes) → length (to_le k v ++ rest) ≡ k + length rest
length-word_append k v rest = omega (arith, length-append (to_le k v) rest, length-to_le k v)

drop-word_append : (k n v : ℕ) (rest : Bytes) → drop (k + n) (to_le k v ++ rest) ≡ drop n rest
drop-word_append k n v rest =
    sym (drop-drop n k (to_le k v ++ rest)) ∙ ap (drop n) (drop-to_le k v rest)

footer_end_lem :
    (doc_count : ℕ)
    → (length (footer_end doc_count) ≡ 64) × (drop 60 (footer_end doc_count) ≡ magic)
unfolding footer_end
footer_end_lem doc_count = (
  omega (
    arith,
    length-word_append 4 doc_count (replicate footer_pad 0 ++ (to_le 4 version ++ magic)),
    length-word_append 4 version magic,
  ),
  drop-word_append 4 56 doc_count (replicate footer_pad 0 ++ (to_le 4 version ++ magic))
      ∙ drop-to_le 4 version magic,
)

-- The footer takes exactly `FooterSize` bytes, the last four of which are the magic.
pub encode_footer_shape :
    (f : Footer) → (length (encode_footer f) ≡ 128) × (drop 124 (encode_footer f) ≡ magic)
unfolding encode_footer
encode_footer_shape f =
    let (size, end) = footer_end_lem f.doc_count in
    (
      simp length-word_append (omega (arith, size)),
      drop-word_append 8 116 f.postings_offset _
          ∙ drop-word_append 8 108 f.postings_len _
          ∙ drop-word_append 8 100 f.positions_offset _
          ∙ drop-word_append 8 92 f.positions_len _
          ∙ drop-word_append 8 84 f.docstore_offset _
          ∙ drop-word_append 8 76 f.docstore_len _
          ∙ drop-word_append 8 68 f.doclens_offset _
          ∙ drop-word_append 8 60 f.doclens_len _
          ∙ end,
    )

decode-encode_fields : (f : Footer) → IsFooter f → decode_fields (encode_footer f) ≡ f
unfolding decode_fields encode_footer footer_end
decode-encode_fields f h = rw (
  get_word-to_le 8 f.postings_offset _ h.postings_offset,
  get_word-to_le 8 f.postings_len _ h.postings_len,
  get_word-to_le 8 f.positions_offset _ h.positions_offset,
  get_word-to_le 8 f.positions_len _ h.positions_len,
  get_word-to_le 8 f.docstore_offset _ h.docstore_offset,
  get_word-to_le 8 f.docstore_len _ h.docstore_len,
  get_word-to_le 8 f.doclens_offset _ h.doclens_offset,
  get_word-to_le 8 f.doclens_len _ h.doclens_len,
  get_word-to_le 4 f.doc_count _ h.doc_count,
)

-- `DecodeFooter` reads the footer that stands at the end of the bytes, whatever stands before it, if its
-- fields fit their widths.
pub decode-encode_footer :
    (f : Footer) (front : Bytes) → IsFooter f → decode_footer (front ++ encode_footer f) ≡ ok f
unfolding decode_footer bytes_beq
decode-encode_footer f front h =
    let (size, end) = encode_footer_shape f in
    rw (
      le→ltb_false (length (front ++ encode_footer f)) 128
          (omega (arith, length-append front (encode_footer f), size)),
      drop-append (length (front ++ encode_footer f) - 128) front (encode_footer f)
          (omega (arith, length-append front (encode_footer f), size)),
      end,
      decode-encode_fields f h,
    )
