-- ===== src/Segment/Plain.antt =====
-- Plain data in place of the libraries that pkg/segment uses, with their laws: data for the tests.
use s3search.Base.{
  ℕ, suc, ◌<◌, ◌≡◌, refl, sym, ap, ◌∙◌, arith, Bytes, List, [], ◌∷◌, ◌++◌, length, take, drop,
  take-append, drop-append, Option, none, some, lookup, bytes_eq,
}
use s3search.Query.Bitmap.{Fst}
use s3search.Query.Plain.{lists}
use s3search.Segment.Build.{Codecs}
use s3search.Segment.Ranges.{CodecLaws}

abbrev pub put_terms : List (Bytes × ℕ) → Bytes
put_terms [] = []
put_terms ((t, id) ∷ terms) = length t ∷ id ∷ (t ++ put_terms terms)

abbrev pub get_terms : ℕ → Bytes → List (Bytes × ℕ)
get_terms (suc n) (len ∷ id ∷ rest) = (take len rest, id) ∷ get_terms n (drop len rest)
get_terms n rest = []

pub get-put_terms : (terms : List (Bytes × ℕ)) → get_terms (length terms) (put_terms terms) ≡ terms
get-put_terms [] = refl
get-put_terms ((t, id) ∷ terms) =
    rw
      (
        take-append (length t) t (put_terms terms) refl,
        drop-append (length t) t (put_terms terms) refl,
        get-put_terms terms,
      )
      refl

-- the map of the terms that the bytes hold
abbrev pub fst_of : List (Bytes × ℕ) → Fst
fst_of terms = record { get = λ t. lookup t terms; iterator = λ start. terms }

abbrev pub load_plain : Bytes → Option Fst
load_plain [] = none
load_plain (n ∷ rest) = some (fst_of (get_terms n rest))

abbrev pub tail_of : Bytes → Option Bytes
tail_of [] = none
tail_of (b ∷ rest) = some rest

-- A bitmap is its elements behind a 1.
abbrev pub plain_codecs : Codecs lists
plain_codecs = record {
  zstd = record { encode_all = λ b. b; decode_all = some; decode-encode = λ b. refl };
  marshal_binary = λ bm. some (1 ∷ bm);
  unmarshal_binary = tail_of;
  build_fst = λ terms. some (length terms ∷ put_terms terms);
  load_fst = load_plain;
  quotient_bits = λ a b. 0;
}

not_empty : (bytes bm : Bytes) → 1 ∷ bm ≡ bytes → 0 < length bytes
not_empty [] bm e = cc
not_empty (b ∷ bytes) bm e = omega arith

pub plain-CodecLaws : CodecLaws lists plain_codecs
plain-CodecLaws = record {
  unmarshal-marshal = λ bm bytes e. ap (λ o. elim o [ none ↦ none | some b ↦ tail_of b ]) (sym e);
  not_empty = λ bm bytes e. not_empty bytes bm (ap (λ o. elim o [ none ↦ [] | some b ↦ b ]) e);
  load-build = λ terms b e. (
    fst_of terms,
    ap (λ o. elim o [ none ↦ none | some x ↦ load_plain x ]) (sym e)
        ∙ ap (λ ts. some (fst_of ts)) (get-put_terms terms),
    λ t. refl,
  );
  quotient_small = λ a b. omega arith;
}
