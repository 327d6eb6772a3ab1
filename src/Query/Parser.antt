-- ===== src/Query/Parser.antt =====
-- The grammar of pkg/query/parser.go.
use s3search.Base.{
  ℕ, zero, suc, ◌+◌, ◌-◌, ◌*◌, Bool, true, false, Bytes, [], ◌∷◌, length, take, ◌==◌,
}
use s3search.Base.{
  bytes_eq, nat_eq, contains, last?, if◌then◌else◌, Option, none, some, Outcome, ok, err, stuck,
  ◌>>=◌,
}
use s3search.Query.Node.{Node, Nodes, match, prefix, phrase, bool, nil, cons}
use s3search.Query.Leaves.{all_fields}
use s3search.Query.Lexer.{
  fields, trim_space, skip_ws, Op, op_and, op_or, op_not, no_op, word_and, word_or, word_not, peek,
  consume, read_token,
}

pub data ParseError : Type 0 where
  unexpected_end missing_paren expected_term empty_value : ParseError

-- `strings.HasSuffix(value, "*")`
unfoldable pub has_star : Bytes → Bool
has_star value = elim (last? value) [ none ↦ false | some c ↦ c == 42 ]

-- `termNode`
unfoldable pub term_node : Bytes → Bytes → Node
unfolding fields has_star
term_node field value =
    if contains 32 value
    then phrase field (fields value)
    else if has_star value
    then prefix field (take (length value - 1) value)
    else match field value

-- the text behind the first byte `c`
unfoldable pub after_first : ℕ → Bytes → Option Bytes
after_first c [] = none
after_first c (b ∷ s) = let rest = after_first c s in if b == c then some s else rest

unfoldable pub before_first : ℕ → Bytes → Bytes
before_first c [] = []
before_first c (b ∷ s) = let rest = before_first c s in if b == c then [] else b ∷ rest

-- `field:value`, if there is something before the first colon
unfoldable pub field_node : Bytes → Option Bytes → Bytes → Outcome ParseError Node
unfolding term_node
field_node [] value tok = ok (term_node all_fields tok)
field_node (c ∷ field) none tok = ok (term_node all_fields tok)
field_node (c ∷ field) (some []) tok = err empty_value
field_node (c ∷ field) (some (v ∷ value)) tok = ok (term_node (c ∷ field) (v ∷ value))

unfoldable pub token_node : Bytes → Outcome ParseError Node
unfolding field_node before_first after_first
token_node [] = err expected_term
token_node (b ∷ tok) = field_node (before_first 58 (b ∷ tok)) (after_first 58 (b ∷ tok)) (b ∷ tok)

unfoldable pub parse_term : Bytes → Outcome ParseError (Node × Bytes)
unfolding token_node read_token
parse_term s = let (tok, rest) = read_token s in token_node tok >>= λ node. ok (node, rest)

unfoldable pub snoc : Nodes → Node → Nodes
snoc nil q = cons q nil
snoc (cons p qs) q = cons p (snoc qs q)

-- `right` joined to what was read before it: a conjunction takes it up, the fields Should and MustNot of
-- which are empty.
unfoldable pub join_and : Node → Node → Node
unfolding snoc
join_and (bool must nil nil filter) right = bool (snoc must right) nil nil filter
join_and left right = bool (cons left (cons right nil)) nil nil nil

unfoldable pub join_or : Node → Node → Node
join_or left right = bool nil (cons left (cons right nil)) nil nil

-- a further operand that no operator announces
unfoldable pub starts_operand : Bytes → Bool
starts_operand [] = false
starts_operand (b ∷ s) = if b == 41 then false else true

-- Where the next operand of a conjunction begins, or nothing at its end.
unfoldable pub next_operand : Op → Bytes → Option Bytes
unfolding consume skip_ws starts_operand
next_operand op_and s = some (consume word_and s)
next_operand op_or s = none
next_operand op_not s = none
next_operand no_op s = if starts_operand (skip_ws s) then some (skip_ws s) else none

unfoldable pub next_alternative : Op → Bytes → Option Bytes
unfolding consume
next_alternative op_or s = some (consume word_or s)
next_alternative op_and s = none
next_alternative op_not s = none
next_alternative no_op s = none

unfoldable pub close_paren : Node → Bytes → Outcome ParseError (Node × Bytes)
close_paren node [] = err missing_paren
close_paren node (b ∷ s) = if b == 41 then ok (node, s) else err missing_paren

unfoldable pub negate : Node → Node
negate child = bool nil nil (cons child nil) nil

unfoldable mutual
  unfolding peek consume skip_ws parse_term join_and join_or next_operand next_alternative
      close_paren negate

  pub parse_or : ℕ → Bytes → Outcome ParseError (Node × Bytes)
  parse_or zero s = stuck
  parse_or (suc fuel) s = do (left, rest) ← parse_and fuel s; or_loop fuel left rest

  -- the loop of `parseOr`
  pub or_loop : ℕ → Node → Bytes → Outcome ParseError (Node × Bytes)
  or_loop zero left s = stuck
  or_loop (suc fuel) left s = elim (next_alternative (peek s) s) [
    | none ↦ ok (left, s)
    | some from ↦ do (right, rest) ← parse_and fuel from; or_loop fuel (join_or left right) rest
  ]

  pub parse_and : ℕ → Bytes → Outcome ParseError (Node × Bytes)
  parse_and zero s = stuck
  parse_and (suc fuel) s = do (left, rest) ← parse_not fuel s; and_loop fuel left rest

  -- the loop of `parseAnd`
  pub and_loop : ℕ → Node → Bytes → Outcome ParseError (Node × Bytes)
  and_loop zero left s = stuck
  and_loop (suc fuel) left s = elim (next_operand (peek s) s) [
    | none ↦ ok (left, s)
    | some from ↦ do (right, rest) ← parse_not fuel from; and_loop fuel (join_and left right) rest
  ]

  pub parse_not : ℕ → Bytes → Outcome ParseError (Node × Bytes)
  parse_not zero s = stuck
  parse_not (suc fuel) s = elim (peek s) [
    | op_not ↦ do (child, rest) ← parse_primary fuel (consume word_not s); ok (negate child, rest)
    | op_and ↦ parse_primary fuel s
    | op_or ↦ parse_primary fuel s
    | no_op ↦ parse_primary fuel s
  ]

  pub parse_primary : ℕ → Bytes → Outcome ParseError (Node × Bytes)
  parse_primary zero s = stuck
  parse_primary (suc fuel) s = parse_primary_at fuel (skip_ws s)

  pub parse_primary_at : ℕ → Bytes → Outcome ParseError (Node × Bytes)
  parse_primary_at zero s = stuck
  parse_primary_at (suc fuel) [] = err unexpected_end
  parse_primary_at (suc fuel) (b ∷ s) =
      let inner = parse_or fuel s >>= λ (node, rest). close_paren node (skip_ws rest) in
      if b == 40 then inner else parse_term (b ∷ s)

-- Six calls at most stand between two that read something; what is left at the end is not looked at.
unfoldable pub parse_query_string : Bytes → Outcome ParseError Node
unfolding parse_or trim_space
parse_query_string input =
    let text = trim_space input in parse_or (6 * length text + 6) text >>= λ (node, rest). ok node
