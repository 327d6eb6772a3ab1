-- ===== src/Query/ParserEnds.antt =====
-- The parser of pkg/query/parser.go ends on every input.
use Prim.{tt}
use s3search.Base.{
  ℕ, zero, suc, ◌+◌, ◌*◌, ◌<◌, ◌≤◌, ◌≡◌, ◌≢◌, refl, arith, Bytes, [], ◌∷◌, length, ◌==◌, bytes_eq,
}
use s3search.Base.{
  Option, none, some, Outcome, ok, err, panic, stuck, ◌>>=◌, Bool-cases, Option-cases, inl, inr,
  ◌⊎◌,
}
use s3search.Query.Node.{Node}
use s3search.Query.Lexer.{
  skip_ws, Op, op_and, op_or, op_not, no_op, word_not, peek, consume, read_token_at, read_token,
  trim_space,
}
use s3search.Query.Parser.{
  ParseError, token_node, field_node, parse_term, next_operand, next_alternative, close_paren,
  join_and, join_or,
}
use s3search.Query.Parser.{
  parse_or, or_loop, parse_and, and_loop, parse_not, parse_primary, parse_primary_at,
  parse_query_string,
}
use s3search.Query.ParserLengths.{
  Ends, bind-Ends, weaken-Ends, length-skip_ws, length-consume, length-next_operand,
  length-next_alternative, length-read_token_at,
}

returned-Ends :
    (o : Outcome ParseError Node) (rest : Bytes) (n : ℕ)
    → o ≢ panic
    → o ≢ stuck
    → length rest < n
    → Ends (o >>= λ node. ok (node, rest)) n
returned-Ends (ok q) rest n p s h = h
returned-Ends (err e) rest n p s h = tt
returned-Ends panic rest n p s h = absurd (p refl)
returned-Ends stuck rest n p s h = absurd (s refl)

field_node-fine :
    (field : Bytes) (value : Option Bytes) (tok : Bytes)
    → (field_node field value tok ≢ panic) × (field_node field value tok ≢ stuck)
unfolding field_node
field_node-fine [] value tok = (λ e. cc, λ e. cc)
field_node-fine (c ∷ field) none tok = (λ e. cc, λ e. cc)
field_node-fine (c ∷ field) (some []) tok = (λ e. cc, λ e. cc)
field_node-fine (c ∷ field) (some (v ∷ value)) tok = (λ e. cc, λ e. cc)

token_node-Ends :
    (tok rest : Bytes) (n : ℕ)
    → (tok ≡ []) ⊎ (length rest < n)
    → Ends (token_node tok >>= λ node. ok (node, rest)) n
unfolding token_node
token_node-Ends [] rest n h = tt
token_node-Ends (b ∷ tok) rest n (inl e) = absurd (cc e)
token_node-Ends (b ∷ tok) rest n (inr h) =
    let (p, s) = field_node-fine _ _ (b ∷ tok) in returned-Ends _ rest n p s h

parse_term-Ends : (s : Bytes) → Ends (parse_term s) (length s)
unfolding parse_term read_token
parse_term-Ends s =
    weaken-Ends (parse_term s) (length (skip_ws s)) (length s)
      (token_node-Ends (read_token_at (skip_ws s)).0 (read_token_at (skip_ws s)).1
        (length (skip_ws s)) (length-read_token_at (skip_ws s)))
      (length-skip_ws s)

close_paren-Ends :
    (q : Node) (s : Bytes) (n : ℕ) → length s ≤ n → Ends (close_paren q (skip_ws s)) n
close_paren-Ends q s n h = by_rest (skip_ws s) (omega (arith, length-skip_ws s))
  where
    by_rest : (r : Bytes) → length r ≤ n → Ends (close_paren q r) n
    by_rest [] k = unfold close_paren in tt
    by_rest (b ∷ r) k = elim (Bool-cases (b == 41)) [
      | inl paren ↦ unfold close_paren in rw paren (omega arith)
      | inr other ↦ unfold close_paren in rw other tt
    ]

Op-cases : (o : Op) → (o ≡ op_not) ⊎ (o ≡ op_and) ⊎ (o ≡ op_or) ⊎ (o ≡ no_op)
Op-cases op_not = inl refl
Op-cases op_and = inr (inl refl)
Op-cases op_or = inr (inr (inl refl))
Op-cases no_op = inr (inr (inr refl))

mutual
  unfolding parse_or or_loop parse_and and_loop parse_not parse_primary parse_primary_at

  parse_or-Ends :
      (fuel : ℕ) (s : Bytes) → 6 * length s + 5 ≤ fuel → Ends (parse_or fuel s) (length s)
  parse_or-Ends zero s h = absurd (omega arith)
  parse_or-Ends (suc fuel) s h =
      bind-Ends (parse_and fuel s) _ (length s) (length s) (parse_and-Ends fuel s (omega arith))
        λ q r l.
          weaken-Ends (or_loop fuel q r) (suc (length r)) (length s)
            (or_loop-Ends fuel q r (omega arith)) (omega arith)

  or_loop-Ends :
      (fuel : ℕ) (q : Node) (s : Bytes)
      → 6 * length s + 5 ≤ fuel
      → Ends (or_loop fuel q s) (suc (length s))
  or_loop-Ends zero q s h = absurd (omega arith)
  or_loop-Ends (suc fuel) q s h = elim (Option-cases (next_alternative (peek s) s)) [
    | inl last ↦ rw (last, or_loop) (omega arith)
    | inr (from, e) ↦
        let size = length-next_alternative (peek s) s from e in
        rw (e, or_loop)
          (bind-Ends (parse_and fuel from) _ (length from) (suc (length s))
            (parse_and-Ends fuel from (omega (arith, size)))
            λ p r l.
              weaken-Ends (or_loop fuel (join_or q p) r) (suc (length r)) (suc (length s))
                (or_loop-Ends fuel (join_or q p) r (omega (arith, size))) (omega (arith, size)))
  ]

  parse_and-Ends :
      (fuel : ℕ) (s : Bytes) → 6 * length s + 4 ≤ fuel → Ends (parse_and fuel s) (length s)
  parse_and-Ends zero s h = absurd (omega arith)
  parse_and-Ends (suc fuel) s h =
      bind-Ends (parse_not fuel s) _ (length s) (length s) (parse_not-Ends fuel s (omega arith))
        λ q r l.
          weaken-Ends (and_loop fuel q r) (suc (length r)) (length s)
            (and_loop-Ends fuel q r (omega arith)) (omega arith)

  and_loop-Ends :
      (fuel : ℕ) (q : Node) (s : Bytes)
      → 6 * length s + 4 ≤ fuel
      → Ends (and_loop fuel q s) (suc (length s))
  and_loop-Ends zero q s h = absurd (omega arith)
  and_loop-Ends (suc fuel) q s h = elim (Option-cases (next_operand (peek s) s)) [
    | inl last ↦ rw (last, and_loop) (omega arith)
    | inr (from, e) ↦
        let size = length-next_operand (peek s) s from e in
        rw (e, and_loop)
          (bind-Ends (parse_not fuel from) _ (length from) (suc (length s))
            (parse_not-Ends fuel from (omega (arith, size)))
            λ p r l.
              weaken-Ends (and_loop fuel (join_and q p) r) (suc (length r)) (suc (length s))
                (and_loop-Ends fuel (join_and q p) r (omega (arith, size))) (omega (arith, size)))
  ]

  parse_not-Ends :
      (fuel : ℕ) (s : Bytes) → 6 * length s + 3 ≤ fuel → Ends (parse_not fuel s) (length s)
  parse_not-Ends zero s h = absurd (omega arith)
  parse_not-Ends (suc fuel) s h = elim (Op-cases (peek s)) [
    | inl not ↦
        let size = length-consume word_not s in
        rw (not, parse_not)
          (bind-Ends (parse_primary fuel (consume word_not s)) _ (length s) (length s)
            (weaken-Ends _ (length (consume word_not s)) (length s)
              (parse_primary-Ends fuel (consume word_not s) (omega (arith, size))) size)
            λ q r l. l)
    | inr (inl and) ↦ rw (and, parse_not) (parse_primary-Ends fuel s (omega arith))
    | inr (inr (inl or)) ↦ rw (or, parse_not) (parse_primary-Ends fuel s (omega arith))
    | inr (inr (inr no_word)) ↦ rw (no_word, parse_not) (parse_primary-Ends fuel s (omega arith))
  ]

  parse_primary-Ends :
      (fuel : ℕ) (s : Bytes) → 6 * length s + 2 ≤ fuel → Ends (parse_primary fuel s) (length s)
  parse_primary-Ends zero s h = absurd (omega arith)
  parse_primary-Ends (suc fuel) s h =
      weaken-Ends (parse_primary_at fuel (skip_ws s)) (length (skip_ws s)) (length s)
        (parse_primary_at-Ends fuel (skip_ws s) (omega (arith, length-skip_ws s)))
        (length-skip_ws s)

  parse_primary_at-Ends :
      (fuel : ℕ) (s : Bytes) → 6 * length s + 1 ≤ fuel → Ends (parse_primary_at fuel s) (length s)
  parse_primary_at-Ends zero s h = absurd (omega arith)
  parse_primary_at-Ends (suc fuel) [] h = tt
  parse_primary_at-Ends (suc fuel) (b ∷ s) h = elim (Bool-cases (b == 40)) [
    | inl paren ↦ rw paren (
        bind-Ends (parse_or fuel s) _ (length s) (length (b ∷ s))
          (parse_or-Ends fuel s (omega arith))
          λ q r l. close_paren-Ends q r (length (b ∷ s)) (omega arith))
    | inr other ↦ rw other (parse_term-Ends (b ∷ s))
  ]

-- On every input `ParseQueryString` ends with a query or an error, in the steps that the model allows it and
-- without a panic.
pub parse_query_string_ends :
    (input : Bytes) → (parse_query_string input ≢ stuck) × (parse_query_string input ≢ panic)
unfolding parse_query_string
parse_query_string_ends input =
    outcome (parse_or (6 * length (trim_space input) + 6) (trim_space input))
      (parse_or-Ends _ (trim_space input) (omega arith))
  where
    outcome :
        (m : Outcome ParseError (Node × Bytes))
        → Ends m (length (trim_space input))
        → ((m >>= λ r. ok r.0) ≢ stuck) × ((m >>= λ r. ok r.0) ≢ panic)
    outcome (ok r) h = (λ e. cc, λ e. cc)
    outcome (err e) h = (λ e. cc, λ e. cc)
    outcome panic h = absurd h
    outcome stuck h = absurd h
