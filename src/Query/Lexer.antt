-- ===== src/Query/Lexer.antt =====
-- The tokens of pkg/query/parser.go and the functions of package strings that it calls. The position is what
-- is left of the input; it stands by itself only in the text of an error.
use s3search.Base.{
  ℕ, zero, suc, ◌-◌, Bool, true, false, ◌&&◌, ◌||◌, Bytes, List, [], ◌∷◌, ◌++◌, length, drop, leb,
  ◌==◌, ◌=?◌,
}
use s3search.Base.{bytes_eq, nat_eq, has_prefix, if◌then◌else◌}

-- the white space of Unicode, as UTF-8
abbrev pub space_runes : List Bytes
space_runes =
    (9 ∷ [])
    ∷ (10 ∷ [])
    ∷ (11 ∷ [])
    ∷ (12 ∷ [])
    ∷ (13 ∷ [])
    ∷ (32 ∷ [])
    ∷ (194 ∷ 133 ∷ [])
    ∷ (194 ∷ 160 ∷ [])
    ∷ (225 ∷ 154 ∷ 128 ∷ [])
    ∷ (226 ∷ 128 ∷ 128 ∷ [])
    ∷ (226 ∷ 128 ∷ 129 ∷ [])
    ∷ (226 ∷ 128 ∷ 130 ∷ [])
    ∷ (226 ∷ 128 ∷ 131 ∷ [])
    ∷ (226 ∷ 128 ∷ 132 ∷ [])
    ∷ (226 ∷ 128 ∷ 133 ∷ [])
    ∷ (226 ∷ 128 ∷ 134 ∷ [])
    ∷ (226 ∷ 128 ∷ 135 ∷ [])
    ∷ (226 ∷ 128 ∷ 136 ∷ [])
    ∷ (226 ∷ 128 ∷ 137 ∷ [])
    ∷ (226 ∷ 128 ∷ 138 ∷ [])
    ∷ (226 ∷ 128 ∷ 168 ∷ [])
    ∷ (226 ∷ 128 ∷ 169 ∷ [])
    ∷ (226 ∷ 128 ∷ 175 ∷ [])
    ∷ (226 ∷ 129 ∷ 159 ∷ [])
    ∷ (227 ∷ 128 ∷ 128 ∷ [])
    ∷ []

-- the bytes of the space that a text begins with, or zero
unfoldable pub width_among : List Bytes → Bytes → ℕ
width_among [] s = 0
width_among (r ∷ rs) s = let rest = width_among rs s in if has_prefix r s then length r else rest

unfoldable pub space_width : Bytes → ℕ
unfolding width_among
space_width s = width_among space_runes s

-- `strings.Fields`, with `cur` the field that is being read; `skip` bytes of a space are left to pass.
unfoldable pub fields_loop : ℕ → Bytes → Bytes → List Bytes
unfolding space_width
fields_loop skip [] [] = []
fields_loop skip (c ∷ cur) [] = (c ∷ cur) ∷ []
fields_loop (suc skip) cur (b ∷ s) = fields_loop skip cur s
fields_loop zero cur (b ∷ s) =
    let more = fields_loop (space_width (b ∷ s) - 1) [] s in
    let longer = fields_loop zero (cur ++ b ∷ []) s in
    if space_width (b ∷ s) == 0 then longer else (if cur =? [] then more else cur ∷ more)

unfoldable pub fields : Bytes → List Bytes
unfolding fields_loop
fields s = fields_loop 0 [] s

-- `strings.TrimSpace`
unfoldable pub trim_start : ℕ → Bytes → Bytes
unfolding space_width
trim_start skip [] = []
trim_start (suc skip) (b ∷ s) = trim_start skip s
trim_start zero (b ∷ s) =
    let more = trim_start (space_width (b ∷ s) - 1) s in
    if space_width (b ∷ s) == 0 then b ∷ s else more

unfoldable pub trim_end : Bytes → Bytes
unfolding trim_start
trim_end [] = []
trim_end (b ∷ s) = let rest = trim_end s in if trim_start 0 (b ∷ s) =? [] then [] else b ∷ rest

unfoldable pub trim_space : Bytes → Bytes
unfolding trim_end trim_start
trim_space s = trim_end (trim_start 0 s)

-- `unicode.IsSpace`, `unicode.IsLetter` and `unicode.IsDigit` of the rune that has the byte's number
unfoldable pub is_space : ℕ → Bool
is_space b = (leb 9 b && leb b 13) || b == 32 || b == 133 || b == 160

unfoldable pub is_letter : ℕ → Bool
is_letter b =
    (leb 65 b && leb b 90)
    || (leb 97 b && leb b 122)
    || b == 170
    || b == 181
    || b == 186
    || (leb 192 b && leb b 214)
    || (leb 216 b && leb b 246)
    || (leb 248 b && leb b 255)

unfoldable pub is_ident_char : ℕ → Bool
unfolding is_letter
is_ident_char b = is_letter b || (leb 48 b && leb b 57) || b == 95

unfoldable pub skip_ws : Bytes → Bytes
unfolding is_space
skip_ws [] = []
skip_ws (b ∷ s) = let rest = skip_ws s in if is_space b then rest else b ∷ s

-- `strings.ToUpper`, of which only ASCII letters can give an operator
unfoldable pub upper : Bytes → Bytes
upper [] = []
upper (b ∷ s) = (if leb 97 b && leb b 122 then b - 32 else b) ∷ upper s

-- the operators, and none
pub data Op : Type 0 where
  op_and op_or op_not no_op : Op

abbrev pub word_and : Bytes
word_and = 65 ∷ 78 ∷ 68 ∷ []

abbrev pub word_or : Bytes
word_or = 79 ∷ 82 ∷ []

abbrev pub word_not : Bytes
word_not = 78 ∷ 79 ∷ 84 ∷ []

-- no identifier goes on here
unfoldable pub ends_word : Bytes → Bool
unfolding is_ident_char
ends_word [] = true
ends_word (b ∷ s) = if is_ident_char b then false else true

unfoldable pub is_word : Bytes → Bytes → Bool
unfolding ends_word upper
is_word word rest = has_prefix word (upper rest) && ends_word (drop (length word) rest)

-- `peek`, at what is left behind white space
unfoldable pub peek : Bytes → Op
unfolding is_word skip_ws
peek s =
    let rest = skip_ws s in
    if is_word word_and rest
    then op_and
    else if is_word word_or rest
    then op_or
    else if is_word word_not rest
    then op_not
    else no_op

unfoldable pub consume : Bytes → Bytes → Bytes
unfolding skip_ws
consume op s = drop (length op) (skip_ws s)

-- the text up to a byte that ends it, and what is left from there on
unfoldable pub until_quote : Bytes → Bytes × Bytes
until_quote [] = ([], [])
until_quote (b ∷ s) =
    let rest = until_quote s in if b == 34 then ([], b ∷ s) else (b ∷ rest.0, rest.1)

unfoldable pub ends_token : ℕ → Bool
ends_token b = b == 32 || b == 9 || b == 40 || b == 41

unfoldable pub until_special : Bytes → Bytes × Bytes
unfolding ends_token
until_special [] = ([], [])
until_special (b ∷ s) =
    let rest = until_special s in if ends_token b then ([], b ∷ s) else (b ∷ rest.0, rest.1)

unfoldable pub is_operator : Bytes → Bool
unfolding upper
is_operator tok = upper tok =? word_and || upper tok =? word_or || upper tok =? word_not

-- `readToken` behind white space
unfoldable pub read_token_at : Bytes → Bytes × Bytes
unfolding until_quote until_special is_operator
read_token_at [] = ([], [])
read_token_at (b ∷ s) =
    if b == 34
    then (let (tok, rest) = until_quote s in (tok, drop 1 rest))
    else let (tok, rest) = until_special (b ∷ s) in
      if is_operator tok then ([], b ∷ s) else (tok, rest)

unfoldable pub read_token : Bytes → Bytes × Bytes
unfolding read_token_at skip_ws
read_token s = read_token_at (skip_ws s)
