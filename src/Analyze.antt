-- ===== src/Analyze.antt =====
-- pkg/analyze/analyze.go: the words of a text. The tables of package unicode and the chain of
-- golang.org/x/text are parameters.
use s3search.Base.{
  ℕ, zero, suc, ◌+◌, ◌-◌, ◌*◌, ◌%◌, ◌^◌, Bool, ◌&&◌, ◌||◌, Bytes, List, [], ◌∷◌, take, drop, ltb,
  leb, if◌then◌else◌, Option, none, some,
}
mod Offsets
mod Tests

pub record Token : Type 0 where
  pub term : Bytes
  pub position : ℕ
  pub start_off : ℕ
  pub end_off : ℕ

-- `strings.ToLower`; the chain that strips diacritics, `none` for an error; `unicode.IsLetter` and
-- `unicode.IsDigit`
pub record Text : Type 0 where
  pub to_lower : Bytes → Bytes
  pub transform_string : Bytes → Option Bytes
  pub is_letter : ℕ → Bool
  pub is_digit : ℕ → Bool

-- a byte that continues a rune, within the bounds that its second byte has
abbrev pub is_between : ℕ → ℕ → ℕ → Bool
is_between lo hi b = leb lo b && leb b hi

-- `utf8.RuneError`, which a faulty byte counts as, one byte wide
abbrev pub faulty : ℕ × ℕ
faulty = (65533, 1)

unfoldable pub two_bytes : ℕ → Bytes → ℕ × ℕ
two_bytes b [] = faulty
two_bytes b (c ∷ rest) = if is_between 128 191 c then ((b % 32) * 64 + c % 64, 2) else faulty

unfoldable pub three_bytes : ℕ → ℕ → ℕ → Bytes → ℕ × ℕ
three_bytes lo hi b (c ∷ d ∷ rest) =
    if is_between lo hi c && is_between 128 191 d
    then ((b % 16) * 4096 + (c % 64) * 64 + d % 64, 3)
    else faulty
three_bytes lo hi b _ = faulty

unfoldable pub four_bytes : ℕ → ℕ → ℕ → Bytes → ℕ × ℕ
four_bytes lo hi b (c ∷ d ∷ e ∷ rest) =
    if is_between lo hi c && is_between 128 191 d && is_between 128 191 e
    then ((b % 8) * 262144 + (c % 64) * 4096 + (d % 64) * 64 + e % 64, 4)
    else faulty
four_bytes lo hi b _ = faulty

-- The rune that `range` reads at the front of a string, and its width.
unfoldable pub decode_rune : ℕ → Bytes → ℕ × ℕ
unfolding two_bytes three_bytes four_bytes
decode_rune b rest =
    if ltb b 128
    then (b, 1)
    else if is_between 194 223 b
    then two_bytes b rest
    else if is_between 224 239 b
    then three_bytes (if leb b 224 then 160 else 128) (if leb 237 b && leb b 237 then 159 else 191)
        b rest
    else if is_between 240 244 b
    then four_bytes (if leb b 240 then 144 else 128) (if leb 244 b then 143 else 191) b rest
    else faulty

module _ (text : Text) where
  unfoldable pub fold_ascii : Bytes → Bytes
  fold_ascii s = elim (text.transform_string (text.to_lower s)) [
    | none ↦ text.to_lower s
    | some result ↦ result
  ]

  unfoldable pub is_word_rune : ℕ → Bool
  is_word_rune r = text.is_letter r || text.is_digit r

  -- The token that ends at `i`, if its term is not empty, before those of the rest, which are given for either position.
  unfoldable pub emit : Bytes → ℕ → ℕ → ℕ → List Token → List Token → List Token
  emit [] pos word_start i next same = same
  emit (c ∷ term) pos word_start i next same =
      record {
        term = c ∷ term;
        position = pos;
        start_off = word_start % 2 ^ 32;
        end_off = i % 2 ^ 32;
      }
      ∷ next

  -- the text's bytes from `word_start` to `i`
  unfoldable pub term_at : Bytes → ℕ → ℕ → Bytes
  unfolding fold_ascii
  term_at s word_start i = fold_ascii (take (i - word_start) (drop word_start s))

  -- The loop over the runes at `i`, of which `skip` bytes belong to the rune before; a word has begun at
  -- `word_start` or not.
  unfoldable pub tokenize_loop : Bytes → ℕ → Option ℕ → ℕ → ℕ → Bytes → List Token
  unfolding emit term_at is_word_rune decode_rune
  tokenize_loop s pos none i skip [] = []
  tokenize_loop s pos (some start) i skip [] = emit (term_at s start i) pos start i [] []
  tokenize_loop s pos word i (suc skip) (b ∷ rest) = tokenize_loop s pos word (suc i) skip rest
  tokenize_loop s pos none i zero (b ∷ rest) =
      let (r, width) = decode_rune b rest in
      let begun = tokenize_loop s pos (some i) (suc i) (width - 1) rest in
      let outside = tokenize_loop s pos none (suc i) (width - 1) rest in
      if is_word_rune r then begun else outside
  tokenize_loop s pos (some start) i zero (b ∷ rest) =
      let (r, width) = decode_rune b rest in
      let inside = tokenize_loop s pos (some start) (suc i) (width - 1) rest in
      let next = tokenize_loop s ((pos + 1) % 2 ^ 32) none (suc i) (width - 1) rest in
      let same = tokenize_loop s pos none (suc i) (width - 1) rest in
      if is_word_rune r then inside else emit (term_at s start i) pos start i next same

  unfoldable pub tokenize : Bytes → List Token
  unfolding tokenize_loop
  tokenize s = tokenize_loop s 0 none 0 0 s
