-- ===== src/Schema/Tests.antt =====
-- The theorems on pkg/schema/schema.go at a schema of two fields.

use s3search.Base.{◌≡◌, ◌↔◌, refl, true, false, Bytes, List, [], ◌∷◌, ok, contains, bytes_beq}
use s3search.Schema.{
  Field, Schema, field_type_text, field_type_i64, validate, validate_fields, validate_id, field,
}
use s3search.Schema.Laws.{IsValid, validate_lem}

-- "a" and "b"
abbrev title : Field
title = record { name = 97 ∷ []; field_type = field_type_text; store = true }

abbrev year : Field
year = record { name = 98 ∷ []; field_type = field_type_i64; store = false }

abbrev two_fields : Schema
two_fields = record { fields = title ∷ year ∷ []; id_field = 98 ∷ [] }

two_fields-valid : validate two_fields ≡ ok ((98 ∷ []) ∷ (97 ∷ []) ∷ [])
unfolding validate validate_fields validate_id s3search.Schema.is_known contains bytes_beq
two_fields-valid = refl

validate_lem_example : ((seen : List Bytes) × (validate two_fields ≡ ok seen)) ↔ IsValid two_fields
validate_lem_example = validate_lem two_fields
