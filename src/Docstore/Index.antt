-- ===== src/Docstore/Index.antt =====
-- `EncodeIndex` and `DecodeIndex` of pkg/docstore/docstore.go.
use s3search.Base.{◌*◌, ◌%◌, ◌/◌, ◌≡◌, refl, ap, arith, List, [], ◌∷◌, ◌++◌, length}
use s3search.Base.{
  length-append, length-to_le, to_le, take-to_le, drop-to_le, from_le-to_le, drop-drop, sym, IsU32,
  All, some, true,
}
use s3search.Base.{◌==◌, ==_iff}
use s3search.Docstore.{BlockEntry, encode_index, decode_entries, decode_index}

pub record IsEntry (e : BlockEntry) : Type 0 where
  pub block_fits : IsU32 e.block
  pub offset_fits : IsU32 e.offset

length-encode_index : (idx : List BlockEntry) → length (encode_index idx) ≡ 8 * length idx
unfolding encode_index
length-encode_index [] = refl
length-encode_index (e ∷ idx) = omega (
  arith,
  length-append (to_le 4 e.block) (to_le 4 e.offset ++ encode_index idx),
  length-append (to_le 4 e.offset) (encode_index idx),
  length-to_le 4 e.block,
  length-to_le 4 e.offset,
  length-encode_index idx,
)

decode_entries-encode_index :
    (idx : List BlockEntry) → All IsEntry idx → decode_entries (length idx) (encode_index idx) ≡ idx
unfolding decode_entries encode_index
decode_entries-encode_index [] h = refl
decode_entries-encode_index (e ∷ idx) (he, h) =
    rw
      (
        sym (drop-drop 4 4 (to_le 4 e.block ++ (to_le 4 e.offset ++ encode_index idx))),
        take-to_le 4 e.block,
        drop-to_le 4 e.block,
        take-to_le 4 e.offset,
        drop-to_le 4 e.offset,
        from_le-to_le 4 e.block he.block_fits,
        from_le-to_le 4 e.offset he.offset_fits,
        decode_entries-encode_index idx h,
      )
      refl

-- An index of uint32s that was encoded is decoded again.
decode-encode_index :
    (idx : List BlockEntry) → All IsEntry idx → decode_index (encode_index idx) ≡ some idx
unfolding decode_index
decode-encode_index idx h = rw (count, whole) (ap some (decode_entries-encode_index idx h))
  where
    count : length (encode_index idx) / 8 ≡ length idx
    count = omega (arith, length-encode_index idx)

    whole : (length (encode_index idx) % 8 == 0) ≡ true
    whole = (==_iff _ _).1 (omega (arith, length-encode_index idx))
