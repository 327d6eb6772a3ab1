-- ===== src/Docstore/Layout.antt =====
-- Where the writer of pkg/docstore/docstore.go has put the documents that it was given.
use native.Mathlib.Decide.{dec_lt}
use Prim.{tt}
use s3search.Base.{◌+◌, ◌^◌, ◌<◌, ◌≤◌, ◌≡◌, sym, ap, ◌∙◌, arith, Bytes, List, [], ◌∷◌}
use s3search.Base.{◌++◌, append_assoc, length, length-append, drop, drop-append_le, length-drop}
use s3search.Base.{get_elem?, get_elem?-append_lt, get_elem?-append_self, get_elem?-lt}
use s3search.Base.{some, length-to_le, to_le}
use s3search.Docstore.{BlockEntry, doc_bytes}

-- The document stands at the entry's offset in the entry's block, of the blocks before compression.
pub record IsAt (raws : List Bytes) (e : BlockEntry) (d : Bytes) : Type 0 where
  pub raw : Bytes
  pub rest : Bytes
  pub in_block : get_elem? raws e.block ≡ some raw
  pub stands : drop e.offset raw ≡ doc_bytes d ++ rest
  pub fits : e.offset + 4 + length d < 2 ^ 32

-- one entry for each document
abbrev pub Laid : List Bytes → List BlockEntry → List Bytes → Type 0
Laid raws [] [] = Unit
Laid raws [] (d ∷ ds) = ⊥
Laid raws (e ∷ es) [] = ⊥
Laid raws (e ∷ es) (d ∷ ds) = IsAt raws e d × Laid raws es ds

pub Laid-map :
    (raws raws' : List Bytes) (es : List BlockEntry) (ds : List Bytes)
    → ((e : BlockEntry) (d : Bytes) → IsAt raws e d → IsAt raws' e d)
    → Laid raws es ds
    → Laid raws' es ds
Laid-map raws raws' [] [] f h = tt
Laid-map raws raws' [] (d ∷ ds) f h = absurd h
Laid-map raws raws' (e ∷ es) [] f h = absurd h
Laid-map raws raws' (e ∷ es) (d ∷ ds) f (h, hs) = (f e d h, Laid-map raws raws' es ds f hs)

pub Laid-snoc :
    (raws : List Bytes) (es : List BlockEntry) (ds : List Bytes) (e : BlockEntry) (d : Bytes)
    → Laid raws es ds
    → IsAt raws e d
    → Laid raws (es ++ e ∷ []) (ds ++ d ∷ [])
Laid-snoc raws [] [] e d h k = (k, tt)
Laid-snoc raws [] (c ∷ ds) e d h k = absurd h
Laid-snoc raws (f ∷ es) [] e d h k = absurd h
Laid-snoc raws (f ∷ es) (c ∷ ds) e d (h, hs) k = (h, Laid-snoc raws es ds e d hs k)

pub length-doc_bytes : (d : Bytes) → length (doc_bytes d) ≡ 4 + length d
unfolding doc_bytes
length-doc_bytes d = omega (arith, length-append (to_le 4 (length d)) d, length-to_le 4 (length d))

-- What follows an offset at which a document stands is not past the end.
pub IsAt-inside :
    (raws : List Bytes) (e : BlockEntry) (d : Bytes) (h : IsAt raws e d)
    → e.offset + 4 + length d ≤ length h.raw
IsAt-inside raws e d h = omega (
  arith,
  length-drop e.offset h.raw,
  ap length h.stands,
  length-append (doc_bytes d) h.rest,
  length-doc_bytes d,
)

-- More bytes in the open block do not move a document.
pub IsAt-grow :
    (raws : List Bytes) (cur more : Bytes) (e : BlockEntry) (d : Bytes)
    → IsAt (raws ++ cur ∷ []) e d
    → IsAt (raws ++ (cur ++ more) ∷ []) e d
IsAt-grow raws cur more e d h = elim (dec_lt e.block (length raws)) [
  | yes before ↦ record {
    raw = h.raw;
    rest = h.rest;
    in_block =
        get_elem?-append_lt raws _ e.block before
        ∙ sym (get_elem?-append_lt raws (cur ∷ []) e.block before)
        ∙ h.in_block;
    stands = h.stands;
    fits = h.fits;
  }
  | no reached ↦
      let last : e.block ≡ length raws =
        omega (arith, get_elem?-lt _ e.block h.in_block, length-append raws (cur ∷ [])) in
      let same : cur ≡ h.raw =
        cc
          (get_elem?-append_self raws cur [], ap (get_elem? (raws ++ cur ∷ [])) last, h.in_block) in
      record {
        raw = cur ++ more;
        rest = h.rest ++ more;
        in_block =
            ap (get_elem? (raws ++ (cur ++ more) ∷ [])) last
            ∙ get_elem?-append_self raws (cur ++ more) [];
        stands =
            drop-append_le e.offset cur more (omega (arith, ap length same, IsAt-inside _ e d h))
            ∙ ap (λ x. drop e.offset x ++ more) same
            ∙ ap (λ x. x ++ more) h.stands
            ∙ append_assoc (doc_bytes d) h.rest more;
        fits = h.fits;
      }
]

-- Nor do further blocks.
pub IsAt-more :
    (raws more : List Bytes) (e : BlockEntry) (d : Bytes) → IsAt raws e d → IsAt (raws ++ more) e d
IsAt-more raws more e d h = record {
  raw = h.raw;
  rest = h.rest;
  in_block =
      get_elem?-append_lt raws more e.block (get_elem?-lt raws e.block h.in_block) ∙ h.in_block;
  stands = h.stands;
  fits = h.fits;
}

-- No document stands in an empty open block.
pub IsAt-committed :
    (raws : List Bytes) (e : BlockEntry) (d : Bytes) → IsAt (raws ++ [] ∷ []) e d → IsAt raws e d
IsAt-committed raws e d h = record {
  raw = h.raw;
  rest = h.rest;
  in_block = sym (get_elem?-append_lt raws ([] ∷ []) e.block before) ∙ h.in_block;
  stands = h.stands;
  fits = h.fits;
}
  where
    before : e.block < length raws
    before = elim (dec_lt e.block (length raws)) [
      | yes b ↦ b
      | no reached ↦
          let last : e.block ≡ length raws =
            omega (arith, get_elem?-lt _ e.block h.in_block, length-append raws ([] ∷ [])) in
          let same : h.raw ≡ [] =
            cc (
              get_elem?-append_self raws [] [],
              ap (get_elem? (raws ++ [] ∷ [])) last,
              h.in_block,
            ) in
          absurd (omega (arith, ap length same, IsAt-inside _ e d h))
    ]
