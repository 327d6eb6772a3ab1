-- ===== src/Schema.antt =====
-- pkg/schema/schema.go: the fields that an index declares. `Laws` is about what `Validate` accepts. JSON is
-- left out.
use s3search.Base.{
  ℕ, Bool, true, false, ◌||◌, Bytes, List, [], ◌∷◌, ◌=?◌, bytes_eq, contains, if◌then◌else◌, ◌>>=◌,
}
use s3search.Base.{Option, none, some, Outcome, ok, err}
mod Laws
mod Tests

-- "text", "keyword" and "i64"
abbrev pub field_type_text : Bytes
field_type_text = 116 ∷ 101 ∷ 120 ∷ 116 ∷ []

abbrev pub field_type_keyword : Bytes
field_type_keyword = 107 ∷ 101 ∷ 121 ∷ 119 ∷ 111 ∷ 114 ∷ 100 ∷ []

abbrev pub field_type_i64 : Bytes
field_type_i64 = 105 ∷ 54 ∷ 52 ∷ []

pub record Field : Type 0 where
  pub name : Bytes
  pub field_type : Bytes
  pub store : Bool

pub record Schema : Type 0 where
  pub fields : List Field
  pub id_field : Bytes

pub data Error : Type 0 where
  duplicate_field : Bytes → Error
  unknown_type : Bytes → Bytes → Error
  id_field_missing : Bytes → Error

-- the switch over the types
unfoldable pub is_known : Bytes → Bool
is_known t = t =? field_type_text || t =? field_type_keyword || t =? field_type_i64

-- The loop of `Validate`, with the names seen so far.
unfoldable pub validate_fields : List Bytes → List Field → Outcome Error (List Bytes)
unfolding is_known
validate_fields seen [] = ok seen
validate_fields seen (f ∷ fs) =
    let rest = validate_fields (f.name ∷ seen) fs in
    if contains f.name seen
    then err (duplicate_field f.name)
    else if is_known f.field_type
    then rest
    else err (unknown_type f.name f.field_type)

unfoldable pub validate_id : Bytes → List Bytes → Outcome Error (List Bytes)
validate_id [] seen = ok seen
validate_id (c ∷ id) seen =
    if contains (c ∷ id) seen then ok seen else err (id_field_missing (c ∷ id))

-- The names seen where the source returns nil.
unfoldable pub validate : Schema → Outcome Error (List Bytes)
unfolding validate_fields validate_id
validate s = validate_fields [] s.fields >>= λ seen. validate_id s.id_field seen

unfoldable pub find_field : Bytes → List Field → Option Field
find_field name [] = none
find_field name (f ∷ fs) = let rest = find_field name fs in if f.name =? name then some f else rest

unfoldable pub field : Schema → Bytes → Option Field
unfolding find_field
field s name = find_field name s.fields

unfoldable pub text_names : List Field → List Bytes
text_names [] = []
text_names (f ∷ fs) =
    let rest = text_names fs in if f.field_type =? field_type_text then f.name ∷ rest else rest

unfoldable pub text_fields : Schema → List Bytes
unfolding text_names
text_fields s = text_names s.fields
