-- ===== src/Docstore/Documents.antt =====
-- What `Reader.Get` of pkg/docstore/docstore.go finds in the blocks of a finished writer.
use Prim.{tt}
use s3search.Base.{
  ℕ, ◌+◌, ◌-◌, ◌^◌, ◌<◌, ◌≤◌, ◌≡◌, refl, sym, ap, ◌∙◌, arith, Bytes, List, [], ◌∷◌, zero, suc,
}
use s3search.Base.{
  ◌++◌, map, append-nil, append_assoc, length, length-append, take, drop, take-append, drop-drop,
}
use s3search.Base.{
  get_elem?, All, ◌==◌, ==_iff, le→ltb_false, Bool-cases, from_le, to_le, take-to_le, drop-to_le,
  from_le-to_le,
}
use s3search.Base.{inl, inr, some, ok}
use s3search.Docstore.{
  Zstd, Writer, BlockEntry, Error, new_writer, doc_bytes, flush_block, add, finalize, get_from, get,
  u32,
}
use s3search.Docstore.Layout.{IsAt, Laid, Laid-map, IsAt-committed, IsAt-inside}
use s3search.Docstore.Written.{Has, Ready, add-Ready, commit_block-Has}

length-zero : (b : Bytes) → length b ≡ 0 → b ≡ []
length-zero [] e = refl
length-zero (x ∷ b) e = absurd (omega (arith, e))

-- A document is cut out of its block.
get_from-stands :
    (raw rest d : Bytes) (off : ℕ)
    → drop off raw ≡ doc_bytes d ++ rest
    → off + 4 + length d ≤ length raw
    → off + 4 + length d < 2 ^ 32
    → get_from raw off ≡ ok d
unfolding get_from doc_bytes
get_from-stands raw rest d off stands inside fits =
    rw
      (
        doc_len,
        start,
        end,
        le→ltb_false (length raw) (off + 4) (omega arith),
        le→ltb_false (length raw) (off + 4 + length d) inside,
        le→ltb_false (off + 4 + length d) (off + 4) (omega arith),
        size,
        behind,
      )
      (ap ok (take-append (length d) d rest refl))
  where
    from_off : drop off raw ≡ to_le 4 (length d) ++ (d ++ rest)
    from_off = stands ∙ append_assoc (to_le 4 (length d)) d rest

    doc_len : from_le (take 4 (drop off raw)) ≡ length d
    doc_len = rw (from_off, take-to_le 4 (length d)) (from_le-to_le 4 (length d) (omega arith))

    start : u32 (off + 4) ≡ off + 4
    start = omega arith

    end : u32 (off + 4 + length d) ≡ off + 4 + length d
    end = omega arith

    size : off + 4 + length d - (off + 4) ≡ length d
    size = omega arith

    behind : drop (off + 4) raw ≡ d ++ rest
    behind = sym (drop-drop 4 off raw) ∙ ap (drop 4) from_off ∙ drop-to_le 4 (length d) (d ++ rest)

module _ (zstd : Zstd) where
  get_elem?-map :
      (raws : List Bytes) (i : ℕ) (raw : Bytes)
      → get_elem? raws i ≡ some raw
      → get_elem? (map zstd.encode_all raws) i ≡ some (zstd.encode_all raw)
  get_elem?-map [] i raw e = cc
  get_elem?-map (r ∷ raws) zero raw e = cc
  get_elem?-map (r ∷ raws) (suc i) raw e = get_elem?-map raws i raw e

  get-IsAt :
      (raws : List Bytes) (e : BlockEntry) (d : Bytes)
      → IsAt raws e d
      → get zstd (map zstd.encode_all raws) e ≡ ok d
  unfolding get
  get-IsAt raws e d h =
      rw (get_elem?-map raws e.block h.raw h.in_block, get, zstd.decode-encode h.raw)
        (get_from-stands h.raw h.rest d e.offset h.stands (IsAt-inside raws e d h) h.fits)

  -- Each entry gives its document, and there are as many of one as of the other.
  abbrev pub Reads : List Bytes → List BlockEntry → List Bytes → Type 0
  Reads blocks [] [] = Unit
  Reads blocks [] (d ∷ ds) = ⊥
  Reads blocks (e ∷ es) [] = ⊥
  Reads blocks (e ∷ es) (d ∷ ds) = (get zstd blocks e ≡ ok d) × Reads blocks es ds

  Laid-Reads :
      (raws : List Bytes) (es : List BlockEntry) (ds : List Bytes)
      → Laid raws es ds
      → Reads (map zstd.encode_all raws) es ds
  Laid-Reads raws [] [] h = tt
  Laid-Reads raws [] (d ∷ ds) h = absurd h
  Laid-Reads raws (e ∷ es) [] h = absurd h
  Laid-Reads raws (e ∷ es) (d ∷ ds) (h, hs) = (get-IsAt raws e d h, Laid-Reads raws es ds hs)

  Has-Reads :
      (w : Writer) (raws docs : List Bytes)
      → Has zstd w raws docs
      → w.cur_buf ≡ []
      → Reads w.blocks w.index docs
  Has-Reads w raws docs h empty = rw h.blocks_are (
      Laid-Reads raws w.index docs
        (Laid-map _ _ w.index docs (IsAt-committed raws) (rw empty at h.laid)))

  finalize-Reads :
      (w : Writer) (raws docs : List Bytes)
      → Ready zstd w raws docs
      → length docs < 2 ^ 32
      → Reads (finalize zstd w).0 (finalize zstd w).1 docs
  unfolding finalize flush_block
  finalize-Reads w raws docs r bound = elim r.open_block [
    | inl empty ↦ rw (ap (λ (x : Bytes). length x == 0) empty) (Has-Reads w raws docs r.has empty)
    | inr (es, e, index, block, room) ↦ elim (Bool-cases (length w.cur_buf == 0)) [
      | inl none_held ↦
          rw none_held
            (Has-Reads w raws docs r.has (length-zero w.cur_buf ((==_iff _ _).0 none_held)))
      | inr held ↦ rw held (
          Has-Reads _ (raws ++ w.cur_buf ∷ []) docs
            (commit_block-Has zstd w raws docs es e r.has index block bound room)
            (unfold s3search.Docstore.commit_block in refl))
    ]
  ]

  pub add_all : Writer → List Bytes → Writer
  add_all w [] = w
  add_all w (d ∷ docs) = add_all (add zstd w d) docs

  abbrev pub IsShort : Bytes → Type 0
  IsShort d = length d ≤ 2 ^ 31

  add_all-Ready :
      (w : Writer) (raws before docs : List Bytes)
      → Ready zstd w raws before
      → All IsShort docs
      → length before + length docs < 2 ^ 32
      → (raws' : List Bytes) × Ready zstd (add_all w docs) raws' (before ++ docs)
  unfolding add_all
  add_all-Ready w raws before [] r h bound = (raws, rw (append-nil before) r)
  add_all-Ready w raws before (d ∷ docs) r (hd, h) bound =
      let (raws', r') = add-Ready zstd w raws before d r (omega arith) hd in
      rw (← append_assoc before (d ∷ []) docs) (
        add_all-Ready (add zstd w d) raws' (before ++ d ∷ []) docs r' h
          (omega (arith, length-append before (d ∷ []))))

  new_writer-Ready : Ready zstd new_writer [] []
  new_writer-Ready = record {
    has = record { blocks_are = refl; laid = tt; few = omega arith };
    small = omega arith;
    open_block = inl refl;
  }

  -- Of documents of up to 2 GB each, fewer than 2^32 of them, that are added in turn to a new writer, the
  -- reader of the finished blocks finds every one under the entry of its position, whatever blocks they
  -- came to stand in.
  pub finalize-add_all :
      (docs : List Bytes)
      → All IsShort docs
      → length docs < 2 ^ 32
      → Reads
          (finalize zstd (add_all new_writer docs)).0
          (finalize zstd (add_all new_writer docs)).1
          docs
  finalize-add_all docs h bound =
      let (raws, r) = add_all-Ready new_writer [] [] docs new_writer-Ready h (omega arith) in
      finalize-Reads (add_all new_writer docs) raws docs r bound
