-- ===== src/Docstore/Written.antt =====
-- What the writer of pkg/docstore/docstore.go keeps true from one document to the next.

use mathlib.Core.List.{reverse, reverse-cons, reverse-reverse, map-append}
use mathlib.Mathlib.Data.List.Basic.{reverse-concat'}
use s3search.Base.{
  ℕ, suc, ◌+◌, ◌-◌, ◌^◌, ◌<◌, ◌≤◌, ◌≡◌, refl, sym, ap, ◌∙◌, arith, Bytes, List, [], ◌∷◌,
}
use s3search.Base.{◌++◌, map, append-nil, length, length-append, drop-append}
use s3search.Base.{get_elem?, get_elem?-append_self, ==_iff, ==_ne, leb, leb_false→lt, Bool-cases}
use s3search.Base.{◌⊎◌, inl, inr}
use s3search.Docstore.{
  Zstd, Writer, BlockEntry, block_size, fix_up_loop, fix_up, doc_bytes, commit_block, flush_block,
}
use s3search.Docstore.{next_entry, add, u32}
use s3search.Docstore.Layout.{
  IsAt, Laid, Laid-map, Laid-snoc, IsAt-grow, IsAt-more, length-doc_bytes,
}

-- The fix-up finds nothing to do where the last entry is of the committed block.
fix_up-last :
    (es : List BlockEntry) (e : BlockEntry) (n : ℕ)
    → e.block ≡ n
    → fix_up n (es ++ e ∷ []) ≡ es ++ e ∷ []
unfolding fix_up fix_up_loop
fix_up-last es e n h =
    ap (λ x. reverse (fix_up_loop n x)) (reverse-concat' es e)
    ∙ rw ((==_iff e.block n).1 h)
        (reverse-cons e (reverse es) ∙ ap (λ x. x ++ e ∷ []) (reverse-reverse es))

module _ (zstd : Zstd) where
  -- The writer has `raws` behind it as compressed blocks and holds the documents `docs`.
  pub record Has (w : Writer) (raws docs : List Bytes) : Type 0 where
    pub blocks_are : w.blocks ≡ map zstd.encode_all raws
    pub laid : Laid (raws ++ w.cur_buf ∷ []) w.index docs
    pub few : length raws ≤ length docs

  length-blocks : (raws : List Bytes) → length (map zstd.encode_all raws) ≡ length raws
  length-blocks [] = refl
  length-blocks (r ∷ raws) = ap suc (length-blocks raws)

  -- A block is committed whose last entry is in place.
  pub commit_block-Has :
      (w : Writer) (raws docs : List Bytes) (es : List BlockEntry) (e : BlockEntry)
      → Has w raws docs
      → w.index ≡ es ++ e ∷ []
      → e.block ≡ length raws
      → length docs < 2 ^ 32
      → suc (length raws) ≤ length docs
      → Has (commit_block zstd w) (raws ++ w.cur_buf ∷ []) docs
  unfolding commit_block
  commit_block-Has w raws docs es e h index block bound room = record {
    blocks_are =
        ap (λ x. x ++ zstd.encode_all w.cur_buf ∷ []) h.blocks_are
        ∙ sym (map-append zstd.encode_all raws (w.cur_buf ∷ []));
    laid =
        rw (ap (fix_up _) index ∙ fix_up-last es e _ commit_idx ∙ sym index)
          (Laid-map _ _ w.index docs (IsAt-more (raws ++ w.cur_buf ∷ []) ([] ∷ [])) h.laid);
    few = omega (arith, length-append raws (w.cur_buf ∷ []));
  }
    where
      size : length (w.blocks ++ zstd.encode_all w.cur_buf ∷ []) ≡ length raws + 1
      size =
          length-append w.blocks (zstd.encode_all w.cur_buf ∷ [])
          ∙ omega (arith, ap length h.blocks_are, length-blocks raws)

      commit_idx : e.block ≡ u32 (length (w.blocks ++ zstd.encode_all w.cur_buf ∷ []) - 1)
      commit_idx = omega (arith, size)

  -- Between two documents.
  pub record Ready (w : Writer) (raws docs : List Bytes) : Type 0 where
    pub has : Has w raws docs
    pub small : length w.cur_buf < block_size
    pub open_block :
        (w.cur_buf ≡ [])
        ⊎ ((es : List BlockEntry) × (e : BlockEntry) × (w.index ≡ es ++ e ∷ [])
            × (e.block ≡ length raws)
            × (suc (length raws) ≤ length docs))

  -- `Add` before it looks at the size of the block
  abbrev added : Writer → Bytes → Writer
  added w d = record w {
    cur_buf = w.cur_buf ++ doc_bytes d;
    index = w.index ++ next_entry w d ∷ [];
  }

  next_block :
      (w : Writer) (raws docs : List Bytes) (d : Bytes)
      → Has w raws docs
      → length docs < 2 ^ 32
      → (next_entry w d).block ≡ length raws
  unfolding next_entry
  next_block w raws docs d h bound =
      omega (arith, ap length h.blocks_are, length-blocks raws, h.few)

  next_offset :
      (w : Writer) (d : Bytes)
      → length w.cur_buf < block_size
      → length d ≤ 2 ^ 31
      → (next_entry w d).offset ≡ length w.cur_buf
  unfolding next_entry
  next_offset w d small short =
      omega (arith, length-append w.cur_buf (doc_bytes d), length-doc_bytes d)

  next-IsAt :
      (w : Writer) (raws docs : List Bytes) (d : Bytes)
      → Has w raws docs
      → length w.cur_buf < block_size
      → length docs < 2 ^ 32
      → length d ≤ 2 ^ 31
      → IsAt (raws ++ (w.cur_buf ++ doc_bytes d) ∷ []) (next_entry w d) d
  next-IsAt w raws docs d h small bound short = record {
    raw = w.cur_buf ++ doc_bytes d;
    rest = [];
    in_block =
        ap (get_elem? (raws ++ (w.cur_buf ++ doc_bytes d) ∷ [])) (next_block w raws docs d h bound)
        ∙ get_elem?-append_self raws (w.cur_buf ++ doc_bytes d) [];
    stands =
        drop-append (next_entry w d).offset w.cur_buf (doc_bytes d)
          (sym (next_offset w d small short))
        ∙ sym (append-nil (doc_bytes d));
    fits = omega (arith, next_offset w d small short);
  }

  added-Has :
      (w : Writer) (raws docs : List Bytes) (d : Bytes)
      → Has w raws docs
      → length w.cur_buf < block_size
      → length docs < 2 ^ 32
      → length d ≤ 2 ^ 31
      → Has (added w d) raws (docs ++ d ∷ [])
  added-Has w raws docs d h small bound short = record {
    blocks_are = h.blocks_are;
    laid =
        Laid-snoc _ w.index docs (next_entry w d) d
          (Laid-map _ _ w.index docs (IsAt-grow raws w.cur_buf (doc_bytes d)) h.laid)
          (next-IsAt w raws docs d h small bound short);
    few = omega (arith, h.few, length-append docs (d ∷ []));
  }

  -- With one more document the writer is ready again.
  pub add-Ready :
      (w : Writer) (raws docs : List Bytes) (d : Bytes)
      → Ready w raws docs
      → suc (length docs) < 2 ^ 32
      → length d ≤ 2 ^ 31
      → (raws' : List Bytes) × Ready (add zstd w d) raws' (docs ++ d ∷ [])
  unfolding add flush_block
  add-Ready w raws docs d r bound short =
      elim (Bool-cases (leb block_size (length (w.cur_buf ++ doc_bytes d)))) [
        | inl full ↦
            rw
              (
                full,
                (==_ne (length (w.cur_buf ++ doc_bytes d)) 0
                    (λ e. absurd (omega (arith, size, e)))),
              )
              (
                raws ++ (w.cur_buf ++ doc_bytes d) ∷ [],
                record {
                  has =
                      commit_block-Has (added w d) raws (docs ++ d ∷ []) w.index (next_entry w d)
                        has refl block (omega (arith, more)) (omega (arith, more, r.has.few));
                  small = unfold commit_block in omega arith;
                  open_block = unfold commit_block in inl refl;
                },
              )
        | inr fits ↦ rw fits (
          raws,
          record {
            has = has;
            small = leb_false→lt _ _ fits;
            open_block = inr (w.index, _, refl, block, omega (arith, more, r.has.few));
          },
        )
      ]
    where
      has : Has (added w d) raws (docs ++ d ∷ [])
      has = added-Has w raws docs d r.has r.small (omega arith) short

      block : (next_entry w d).block ≡ length raws
      block = next_block w raws docs d r.has (omega arith)

      size : length (w.cur_buf ++ doc_bytes d) ≡ length w.cur_buf + (4 + length d)
      size = omega (arith, length-append w.cur_buf (doc_bytes d), length-doc_bytes d)

      more : length (docs ++ d ∷ []) ≡ length docs + 1
      more = length-append docs (d ∷ [])
