-- ===== src/Docstore.antt =====
-- pkg/docstore/docstore.go: the documents of a segment in compressed blocks. `Layout` says what a writer has
-- laid out, `Documents` what a reader gets back, and `Index` is about the encoded list of entries.
use s3search.Base.{
  ℕ, zero, suc, ◌+◌, ◌-◌, ◌*◌, ◌%◌, ◌/◌, ◌^◌, ◌≡◌, Bytes, List, [], ◌∷◌, ◌++◌, length, take, drop,
}
use s3search.Base.{
  get_elem?, ltb, leb, ◌==◌, if◌then◌else◌, Option, none, some, Outcome, ok, err, panic, to_le,
  from_le,
}
use mathlib.Core.List.{reverse}
mod Layout
mod Written
mod Documents
mod Index
mod Tests

-- github.com/klauspost/compress/zstd: what was encoded is decoded again.
pub record Zstd : Type 0 where
  pub encode_all : Bytes → Bytes
  pub decode_all : Bytes → Option Bytes
  pub decode-encode : (b : Bytes) → decode_all (encode_all b) ≡ some b

abbrev pub block_size : ℕ
block_size = 64 * 1024

pub record BlockEntry : Type 0 where
  pub block : ℕ
  pub offset : ℕ

-- The fields `curDocs` and `curStart` of the source are never used.
pub record Writer : Type 0 where
  pub blocks : List Bytes
  pub index : List BlockEntry
  pub cur_buf : Bytes

abbrev pub new_writer : Writer
new_writer = record { blocks = []; index = []; cur_buf = [] }

-- `uint32(n)`
abbrev pub u32 : ℕ → ℕ
u32 n = n % 2 ^ 32

-- The loop over the index from its end, which here is the head.
unfoldable pub fix_up_loop : ℕ → List BlockEntry → List BlockEntry
fix_up_loop commit_idx [] = []
fix_up_loop commit_idx (e ∷ es) =
    let rest = fix_up_loop commit_idx es in
    if e.block == commit_idx then e ∷ es else record e { block = commit_idx } ∷ rest

unfoldable pub fix_up : ℕ → List BlockEntry → List BlockEntry
unfolding fix_up_loop
fix_up commit_idx index = reverse (fix_up_loop commit_idx (reverse index))

-- an entry's length and bytes
unfoldable pub doc_bytes : Bytes → Bytes
doc_bytes raw_json = to_le 4 (length raw_json) ++ raw_json

-- the checks that `Reader.Get` may fail
pub data Error : Type 0 where
  block_out_of_range decompress offset_out_of_range overruns_block : Error

-- the entry that `Add` makes
unfoldable pub next_entry : Writer → Bytes → BlockEntry
unfolding doc_bytes
next_entry w raw_json = record {
  block = u32 (length w.blocks);
  offset =
      (u32 (length (w.cur_buf ++ doc_bytes raw_json)) + 2 ^ 33 - u32 (length raw_json) - 4)
      % 2 ^ 32;
}

-- from a decompressed block
unfoldable pub get_from : Bytes → ℕ → Outcome Error Bytes
get_from raw off =
    let doc_len = from_le (take 4 (drop off raw)) in
    let start = u32 (off + 4) in
    let end = u32 (start + doc_len) in
    if ltb (length raw) (off + 4)
    then err offset_out_of_range
    else if ltb (length raw) end
    then err overruns_block
    else if ltb end start
    then panic
    else ok (take (end - start) (drop start raw))

module _ (zstd : Zstd) where
  -- `flushBlock` with something in the buffer
  unfoldable pub commit_block : Writer → Writer
  unfolding fix_up
  commit_block w =
      let blocks = w.blocks ++ zstd.encode_all w.cur_buf ∷ [] in
      record { blocks = blocks; index = fix_up (u32 (length blocks - 1)) w.index; cur_buf = [] }

  unfoldable pub flush_block : Writer → Writer
  unfolding commit_block
  flush_block w = if length w.cur_buf == 0 then w else commit_block w

  unfoldable pub add : Writer → Bytes → Writer
  unfolding doc_bytes next_entry flush_block
  add w raw_json =
      let w' = record w {
        cur_buf = w.cur_buf ++ doc_bytes raw_json;
        index = w.index ++ next_entry w raw_json ∷ [];
      } in
      if leb block_size (length w'.cur_buf) then flush_block w' else w'

  unfoldable pub finalize : Writer → List Bytes × List BlockEntry
  unfolding flush_block
  finalize w = let w' = flush_block w in (w'.blocks, w'.index)

  -- `Reader.Get`
  unfoldable pub get : List Bytes → BlockEntry → Outcome Error Bytes
  unfolding get_from
  get blocks entry = elim (get_elem? blocks entry.block) [
    | none ↦ err block_out_of_range
    | some compressed ↦ elim (zstd.decode_all compressed) [
      | none ↦ err decompress
      | some raw ↦ get_from raw entry.offset
    ]
  ]

unfoldable pub encode_index : List BlockEntry → Bytes
encode_index [] = []
encode_index (e ∷ idx) = to_le 4 e.block ++ (to_le 4 e.offset ++ encode_index idx)

unfoldable pub decode_entries : ℕ → Bytes → List BlockEntry
decode_entries zero bytes = []
decode_entries (suc n) bytes =
    record { block = from_le (take 4 bytes); offset = from_le (take 4 (drop 4 bytes)) }
    ∷ decode_entries n (drop 8 bytes)

-- no result for a length that is no multiple of eight
unfoldable pub decode_index : Bytes → Option (List BlockEntry)
unfolding decode_entries
decode_index bytes =
    if length bytes % 8 == 0 then some (decode_entries (length bytes / 8) bytes) else none
