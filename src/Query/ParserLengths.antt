-- ===== src/Query/ParserLengths.antt =====
-- How much of the input the parts of pkg/query/parser.go leave.
use Prim.{tt}
use s3search.Base.{
  ℕ, ◌+◌, ◌<◌, ◌≤◌, ◌≡◌, refl, arith, Bytes, [], ◌∷◌, length, length-drop, ◌==◌, bytes_eq,
}
use s3search.Base.{some, Outcome, ok, err, panic, stuck, ◌>>=◌, Bool-cases, inl, inr, ◌⊎◌}
use s3search.Query.Node.{Node}
use s3search.Query.Lexer.{
  skip_ws, Op, op_and, op_or, op_not, no_op, consume, until_quote, until_special, is_operator,
  read_token_at,
}
use s3search.Query.Parser.{ParseError, next_operand, next_alternative}

-- A result with fewer than `n` bytes left, or an error, but no panic and no lack of fuel.
abbrev pub Ends : Outcome ParseError (Node × Bytes) → ℕ → Type 0
Ends (ok (q, s)) n = length s < n
Ends (err e) n = Unit
Ends panic n = ⊥
Ends stuck n = ⊥

pub bind-Ends :
    (m : Outcome ParseError (Node × Bytes)) (f : Node × Bytes → Outcome ParseError (Node × Bytes))
    (n k : ℕ)
    → Ends m n
    → ((q : Node) (s : Bytes) → length s < n → Ends (f (q, s)) k)
    → Ends (m >>= f) k
bind-Ends (ok (q, s)) f n k h then_ends = then_ends q s h
bind-Ends (err e) f n k h then_ends = tt
bind-Ends panic f n k h then_ends = absurd h
bind-Ends stuck f n k h then_ends = absurd h

pub weaken-Ends : (m : Outcome ParseError (Node × Bytes)) (n k : ℕ) → Ends m n → n ≤ k → Ends m k
weaken-Ends (ok (q, s)) n k h l = omega arith
weaken-Ends (err e) n k h l = tt
weaken-Ends panic n k h l = absurd h
weaken-Ends stuck n k h l = absurd h

pub length-skip_ws : (s : Bytes) → length (skip_ws s) ≤ length s
unfolding skip_ws
length-skip_ws [] = omega arith
length-skip_ws (b ∷ s) = ground (arith, length-skip_ws s)

pub length-consume : (op s : Bytes) → length (consume op s) ≤ length s
unfolding consume
length-consume op s = omega (arith, length-drop (length op) (skip_ws s), length-skip_ws s)

pub length-next_operand :
    (op : Op) (s from : Bytes) → next_operand op s ≡ some from → length from ≤ length s
unfolding next_operand
length-next_operand op_and s from e = ground (arith, length-consume (65 ∷ 78 ∷ 68 ∷ []) s)
length-next_operand op_or s from e = cc
length-next_operand op_not s from e = cc
length-next_operand no_op s from e = ground (arith, length-skip_ws s)

pub length-next_alternative :
    (op : Op) (s from : Bytes) → next_alternative op s ≡ some from → length from ≤ length s
unfolding next_alternative
length-next_alternative op_or s from e = ground (arith, length-consume (79 ∷ 82 ∷ []) s)
length-next_alternative op_and s from e = cc
length-next_alternative op_not s from e = cc
length-next_alternative no_op s from e = cc

length-until_quote : (s : Bytes) → length (until_quote s).1 ≤ length s
unfolding until_quote
length-until_quote [] = omega arith
length-until_quote (b ∷ s) = ground (arith, length-until_quote s)

length-until_special :
    (s : Bytes) → length (until_special s).0 + length (until_special s).1 ≡ length s
unfolding until_special
length-until_special [] = omega arith
length-until_special (b ∷ s) = ground (arith, length-until_special s)

-- A token that is not empty has taken something.
pub length-read_token_at :
    (s : Bytes) → ((read_token_at s).0 ≡ []) ⊎ (length (read_token_at s).1 < length s)
unfolding read_token_at
length-read_token_at [] = inl refl
length-read_token_at (b ∷ s) = elim (Bool-cases (b == 34)) [
  | inl quoted ↦
      rw quoted (inr (omega (arith, length-drop 1 (until_quote s).1, length-until_quote s)))
  | inr plain ↦ elim (Bool-cases (is_operator (until_special (b ∷ s)).0)) [
    | inl operator ↦ rw (plain, operator) (inl refl)
    | inr word ↦
        rw (plain, word)
          (taken (until_special (b ∷ s)).0 (until_special (b ∷ s)).1 (length-until_special (b ∷ s)))
  ]
]
  where
    taken :
        (tok rest : Bytes)
        → length tok + length rest ≡ length (b ∷ s)
        → (tok ≡ []) ⊎ (length rest < length (b ∷ s))
    taken [] rest e = inl refl
    taken (c ∷ tok) rest e = inr (omega (arith, e))
