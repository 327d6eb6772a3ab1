-- ===== src/Analyze/Offsets.antt =====
-- The positions and the offsets of the tokens of pkg/analyze/analyze.go.
use Prim.{tt}
use s3search.Base.{
  ℕ, zero, suc, ◌+◌, ◌-◌, ◌%◌, ◌^◌, ◌<◌, ◌≤◌, ◌≡◌, ◌≢◌, refl, arith, Bytes, List, [], ◌∷◌, length,
  take, drop, Bool-cases, inl, inr, Option, none, some, IsU32,
}
use s3search.Analyze.{
  Token, Text, fold_ascii, is_word_rune, emit, term_at, decode_rune, tokenize_loop, tokenize,
}

module _ (text : Text) where
  -- A token that stands at `from` or later in the text, with what its term was made of.
  pub record IsTokenOf (s : Bytes) (n from : ℕ) (t : Token) : Type 0 where
    pub position : t.position ≡ n
    pub behind : from ≤ t.start_off
    pub not_empty : t.start_off < t.end_off
    pub inside : t.end_off ≤ length s
    pub term_of : t.term ≡ fold_ascii text (take (t.end_off - t.start_off) (drop t.start_off s))
    pub some_term : t.term ≢ []

  -- tokens numbered from `n` on, each behind the end of the one before
  abbrev pub AreTokensOf : Bytes → ℕ → ℕ → List Token → Type 0
  AreTokensOf s n from [] = Unit
  AreTokensOf s n from (t ∷ ts) = IsTokenOf s n from t × AreTokensOf s (suc n) t.end_off ts

  weaken :
      (s : Bytes) (n from from' : ℕ) (ts : List Token)
      → from' ≤ from
      → AreTokensOf s n from ts
      → AreTokensOf s n from' ts
  weaken s n from from' [] h k = tt
  weaken s n from from' (t ∷ ts) h (k, rest) = (
    record {
      position = k.position;
      behind = omega (arith, k.behind);
      not_empty = k.not_empty;
      inside = k.inside;
      term_of = k.term_of;
      some_term = k.some_term;
    },
    rest,
  )

  emit-AreTokensOf :
      (s term : Bytes) (pos start i : ℕ) (next same : List Token)
      → term ≡ term_at text s start i
      → start < i
      → i ≤ length s
      → IsU32 (length s)
      → AreTokensOf s (suc pos) i next
      → AreTokensOf s pos start same
      → AreTokensOf s pos start (emit text term pos start i next same)
  unfolding emit term_at
  emit-AreTokensOf s [] pos start i next same e before inside small n h = h
  emit-AreTokensOf s (c ∷ term) pos start i next same e before inside small n h =
      let start_is : start % 2 ^ 32 ≡ start = omega arith in
      let end_is : i % 2 ^ 32 ≡ i = omega arith in
      rw (start_is, end_is)
        (
          record {
            position = refl;
            behind = omega arith;
            not_empty = before;
            inside = inside;
            term_of = e;
            some_term = λ p. cc;
          },
          n,
        )

  -- what the loop has still to give, outside a word or in one
  abbrev Holds : Bytes → ℕ → Option ℕ → ℕ → List Token → Type 0
  Holds s pos none i ts = AreTokensOf s pos i ts
  Holds s pos (some start) i ts = start < i → AreTokensOf s pos start ts

  tokenize_loop_lem :
      (rest s : Bytes) (pos : ℕ) (word : Option ℕ) (i skip : ℕ)
      → IsU32 (length s)
      → i + length rest ≡ length s
      → pos ≤ i
      → Holds s pos word i (tokenize_loop text s pos word i skip rest)
  unfolding tokenize_loop
  tokenize_loop_lem [] s pos none i skip small at le = tt
  tokenize_loop_lem [] s pos (some start) i skip small at le = λ before.
      emit-AreTokensOf s (term_at text s start i) pos start i [] [] refl before (omega arith) small
        tt tt
  tokenize_loop_lem (b ∷ rest) s pos none i (suc skip) small at le =
      weaken s pos (suc i) i _ (omega arith)
        (tokenize_loop_lem rest s pos none (suc i) skip small (omega arith) (omega arith))
  tokenize_loop_lem (b ∷ rest) s pos (some start) i (suc skip) small at le = λ before.
      tokenize_loop_lem rest s pos (some start) (suc i) skip small (omega arith) (omega arith)
        (omega arith)
  tokenize_loop_lem (b ∷ rest) s pos none i zero small at le =
      let (r, width) = decode_rune b rest in
      elim (Bool-cases (is_word_rune text (decode_rune b rest).0)) [
        | inl letter ↦ rw letter (
            tokenize_loop_lem rest s pos (some i) (suc i) ((decode_rune b rest).1 - 1) small
              (omega arith) (omega arith) (omega arith))
        | inr other ↦ rw other (
            weaken s pos (suc i) i _ (omega arith) (
              tokenize_loop_lem rest s pos none (suc i) ((decode_rune b rest).1 - 1) small
                (omega arith) (omega arith)))
      ]
  tokenize_loop_lem (b ∷ rest) s pos (some start) i zero small at le = λ before.
      elim (Bool-cases (is_word_rune text (decode_rune b rest).0)) [
        | inl letter ↦ rw letter (
            tokenize_loop_lem rest s pos (some start) (suc i) ((decode_rune b rest).1 - 1) small
              (omega arith) (omega arith) (omega arith))
        | inr other ↦ rw other (
            emit-AreTokensOf s (term_at text s start i) pos start i _ _ refl before (omega arith)
              small
              (rw next_pos (
                weaken s (suc pos) (suc i) i _ (omega arith) (
                  tokenize_loop_lem rest s (suc pos) none (suc i) ((decode_rune b rest).1 - 1) small
                    (omega arith) (omega arith))))
              (weaken s pos (suc i) start _ (omega arith) (
                tokenize_loop_lem rest s pos none (suc i) ((decode_rune b rest).1 - 1) small
                  (omega arith) (omega arith))))
      ]
    where
      next_pos : (pos + 1) % 2 ^ 32 ≡ suc pos
      next_pos = omega (arith, small, at, le)

  -- The tokens of a text shorter than 2 ^ 32 bytes are numbered from 0 on, and each stands behind the end of
  -- the one before, in the text, with a term that is not empty and is the folding of the bytes that it
  -- stands at.
  pub tokenize-AreTokensOf : (s : Bytes) → IsU32 (length s) → AreTokensOf s 0 0 (tokenize text s)
  unfolding tokenize
  tokenize-AreTokensOf s small = tokenize_loop_lem s s 0 none 0 0 small (omega arith) (omega arith)
