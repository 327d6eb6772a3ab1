-- ===== src/Analyze/Tests.antt =====
-- The theorem on pkg/analyze/analyze.go at a short text.
use s3search.Base.{◌≡◌, refl, arith, Bytes, [], ◌∷◌, some, leb, ◌&&◌, false}
use s3search.Analyze.{Text, tokenize}
use s3search.Analyze.Offsets.{AreTokensOf, tokenize-AreTokensOf}

-- lower-case letters are letters
abbrev lower_case : Text
lower_case = record {
  to_lower = λ s. s;
  transform_string = some;
  is_letter = λ r. leb 97 r && leb r 122;
  is_digit = λ r. false;
}

-- "ab é c"
abbrev words : Bytes
words = 97 ∷ 98 ∷ 32 ∷ 195 ∷ 169 ∷ 32 ∷ 99 ∷ []

tokenize-AreTokensOf_example : AreTokensOf lower_case words 0 0 (tokenize lower_case words)
tokenize-AreTokensOf_example = tokenize-AreTokensOf lower_case words (omega arith)

-- two words, at 0 and at 6
two_words :
    tokenize lower_case words
    ≡ record { term = 97 ∷ 98 ∷ []; position = 0; start_off = 0; end_off = 2 }
      ∷ record { term = 99 ∷ []; position = 1; start_off = 6; end_off = 7 }
      ∷ []
unfolding tokenize
two_words = refl
