-- ===== src/Segment/Reader.antt =====
-- pkg/segment/reader.go: the reads of a segment's file in the store. Offsets are below 2 ^ 63, so that their
-- conversion to int64 keeps them.
use s3search.Base.{
  ℕ, zero, suc, ◌+◌, ◌-◌, ◌*◌, ◌%◌, ◌^◌, Bool, false, ◌||◌, Bytes, List, [], ◌∷◌, ◌++◌, length,
  take, drop, replicate, get_elem?, ltb, ◌==◌, if◌then◌else◌, from_le,
}
use s3search.Base.{Option, none, some, Outcome, ok, err, panic, stuck, ◌>>=◌}
use s3search.Store.Blob.{StoreError, BlobStore}
use s3search.Postings.Positions as Positions
use s3search.Postings.Positions.{PositionsEntry, decode_positions}
use s3search.Docstore as Docstore
use s3search.Docstore.{BlockEntry, decode_index, get}
use s3search.Query.Bitmap.{Roaring}
use s3search.Query.Leaves.{Reader}
use s3search.Segment.Footer as Footers
use s3search.Segment.Footer.{Footer, footer_size, decode_footer}
use s3search.Segment.Hotcache.{TermOffsets, Hotcache}
use s3search.Segment.Build.{Codecs}

pub data ReadError : Type 0 where
  store_read : StoreError → ReadError
  too_small no_blocks block_range bad_index bad_postings : ReadError
  bad_footer : Footers.Error → ReadError
  bad_positions : Positions.Error → ReadError
  bad_doc : Docstore.Error → ReadError

-- an error with what was being read
unfoldable pub reading {ℓ κ} :
    {E : Type ℓ} {A : Type κ} → (E → ReadError) → Outcome E A → Outcome ReadError A
reading f (ok a) = ok a
reading f (err e) = err (f e)
reading f panic = panic
reading f stuck = stuck

pub record SegmentReader : Type 0 where
  pub seg_key : Bytes
  pub footer : Footer

module _ (bs : BlobStore) (s : bs.State) where
  unfoldable pub open_footer : Bytes → ℕ → Outcome ReadError SegmentReader
  unfolding reading decode_footer
  open_footer seg_key size = do
    bytes ← reading store_read (bs.get_range s seg_key (size - footer_size) footer_size)
    footer ← reading bad_footer (decode_footer (replicate footer_size 0 ++ bytes))
    ok (record { seg_key = seg_key; footer = footer })

  unfoldable pub new_reader : Bytes → Outcome ReadError SegmentReader
  unfolding reading open_footer
  new_reader seg_key = reading store_read (bs.head s seg_key) >>= λ size.
      if ltb size footer_size then err too_small else open_footer seg_key size

  unfoldable pub get_positions :
      SegmentReader → TermOffsets → Outcome ReadError (List PositionsEntry)
  unfolding reading decode_positions
  get_positions r to =
      if to.pos_len == 0
      then ok []
      else (reading store_read (bs.get_range s r.seg_key to.pos_off to.pos_len) >>= λ bytes.
          reading bad_positions (decode_positions bytes))

  -- the block at `block_idx`, with the table of offsets in hand
  unfoldable pub block_at : SegmentReader → ℕ → ℕ → Bytes → Outcome ReadError Bytes
  unfolding reading
  block_at r block_idx table_size tbl =
      let start_at = block_idx * 8 % 2 ^ 32 in
      let end_at = (block_idx + 1) * 8 % 2 ^ 32 in
      let start = from_le (take 8 (drop start_at tbl)) in
      let end = from_le (take 8 (drop end_at tbl)) in
      if ltb (length tbl) ((block_idx + 2) * 8 % 2 ^ 32)
      then err block_range
      else if ltb (length tbl) (start_at + 8) || ltb (length tbl) (end_at + 8)
      then panic
      else reading store_read (
          bs.get_range s r.seg_key (r.footer.docstore_offset + table_size + start)
            ((end + 2 ^ 64 - start) % 2 ^ 64))

  unfoldable pub get_doc_block : SegmentReader → ℕ → ℕ → Outcome ReadError Bytes
  unfolding reading block_at
  get_doc_block r block_idx num_blocks =
      let table_size = (num_blocks + 1) % 2 ^ 32 * 8 in
      if num_blocks == 0
      then err no_blocks
      else (reading store_read (bs.get_range s r.seg_key r.footer.docstore_offset table_size)
          >>= block_at r block_idx table_size)

  -- the loop that fetches the blocks from the `i`th on
  unfoldable pub fetch_blocks : SegmentReader → ℕ → ℕ → ℕ → Outcome ReadError (List Bytes)
  unfolding get_doc_block
  fetch_blocks r num_blocks i zero = ok []
  fetch_blocks r num_blocks i (suc n) = do
    blk ← get_doc_block r i num_blocks
    blks ← fetch_blocks r num_blocks (suc i) n
    ok (blk ∷ blks)

  module _ (rb : Roaring) (codecs : Codecs rb) where
    unfoldable pub unmarshal : Bytes → Outcome ReadError rb.Bitmap
    unmarshal bytes = elim (codecs.unmarshal_binary bytes) [
      | none ↦ err bad_postings
      | some bm ↦ ok bm
    ]

    unfoldable pub get_postings : SegmentReader → TermOffsets → Outcome ReadError rb.Bitmap
    unfolding reading unmarshal
    get_postings r to =
        if to.post_len == 0
        then ok rb.new
        else (reading store_read (bs.get_range s r.seg_key to.post_off to.post_len) >>= unmarshal)

    -- the two reads of a term that a query makes
    unfoldable pub term_reader : SegmentReader → Reader rb ReadError
    unfolding get_postings get_positions
    term_reader r = record { get_postings = get_postings r; get_positions = get_positions r }

    -- `NewReader` as a query uses it
    unfoldable pub new_term_reader : Bytes → Outcome ReadError (Reader rb ReadError)
    unfolding new_reader term_reader
    new_term_reader seg_key = new_reader seg_key >>= λ r. ok (term_reader r)

    unfoldable pub is_skipped : Option rb.Bitmap → ℕ → Bool
    is_skipped none doc_id = false
    is_skipped (some del_bitmap) doc_id = rb.has doc_id del_bitmap

    -- The loop over the documents from `doc_id` on, where `fn` changes a state and may fail.
    unfoldable pub iterate_loop {ℓ} :
        {S : Type ℓ}
        → (S → ℕ → Bytes → Outcome ReadError S)
        → List Bytes
        → List BlockEntry
        → Option rb.Bitmap
        → ℕ
        → ℕ
        → S
        → Outcome ReadError S
    unfolding is_skipped reading get
    iterate_loop fn blocks ds_idx del_bitmap doc_id zero st = ok st
    iterate_loop fn blocks ds_idx del_bitmap doc_id (suc n) st =
        let rest = iterate_loop fn blocks ds_idx del_bitmap (suc doc_id) n in
        let skipped = rest st in
        let found = λ (entry : BlockEntry).
          reading bad_doc (get codecs.zstd blocks entry) >>= λ raw_json.
          fn st doc_id raw_json >>= rest in
        if is_skipped del_bitmap doc_id
        then skipped
        else elim (get_elem? ds_idx doc_id) [ none ↦ skipped | some entry ↦ found entry ]

    unfoldable pub index_of : Bytes → Outcome ReadError (List BlockEntry)
    unfolding decode_index
    index_of bytes = elim (decode_index bytes) [ none ↦ err bad_index | some idx ↦ ok idx ]

    unfoldable pub iterate_docs {ℓ} :
        {S : Type ℓ}
        → SegmentReader
        → Hotcache
        → Option rb.Bitmap
        → (S → ℕ → Bytes → Outcome ReadError S)
        → S
        → Outcome ReadError S
    unfolding index_of fetch_blocks iterate_loop
    iterate_docs r hc del_bitmap fn st = do
      ds_idx ← index_of hc.docstore_idx
      blocks ← fetch_blocks r hc.num_docstore_blocks 0 hc.num_docstore_blocks
      iterate_loop fn blocks ds_idx del_bitmap 0 hc.doc_count st
