-- ===== src/Index/Memtable.antt =====
-- pkg/index/memtable.go: the documents that wait in memory for a segment.
use s3search.Base.{
  ℕ, ◌+◌, ◌%◌, ◌^◌, Bytes, List, [], ◌∷◌, length, lookup, insert, bytes_eq, ◌=?◌, if◌then◌else◌,
}
use s3search.Base.{Option, none, some, Outcome, ok, err}
use s3search.Analyze.{Token, Text, tokenize}
use s3search.Schema.{Field, Schema, field_type_text, field_type_keyword}
use s3search.Docstore.{Writer, new_writer, add}
use s3search.Query.Bitmap.{Roaring}
use s3search.Segment.Accumulator.{FieldAccumulator, new_field_accumulator, add_token, set_doclen}
use s3search.Segment.Build.{Codecs, BuildError, BuildResult, build}

-- github.com/valyala/fastjson: a parsed document, a field of an object, and `GetStringBytes`, `none`
-- for nil.
pub record FastJson : Type 1 where
  pub Value : Type 0
  pub parse_bytes : Bytes → Option Value
  pub get : Value → Bytes → Option Value
  pub get_string_bytes : Value → Option Bytes

-- What a memtable is made for, and what it calls.
pub record Settings : Type 1 where
  pub schema : Schema
  pub rb : Roaring
  pub codecs : Codecs rb
  pub fast_json : FastJson
  pub text : Text

pub data AddError : Type 0 where
  invalid_json : AddError

module _ (set : Settings) where
  abbrev pub Accumulators : Type 0
  Accumulators = List (Bytes × FieldAccumulator set.rb)

  pub record Memtable : Type 0 where
    pub fields : List (Bytes × FieldAccumulator set.rb)
    pub ds : Writer
    pub doc_count : ℕ
    pub raw_bytes : ℕ

  -- the accumulators of the text and keyword fields
  unfoldable pub make_fields : List Field → Accumulators → Accumulators
  unfolding new_field_accumulator
  make_fields [] m = m
  make_fields (f ∷ fs) m =
      let with_field = make_fields fs (insert f.name (new_field_accumulator set.rb f.name) m) in
      let without = make_fields fs m in
      if f.field_type =? field_type_text
      then with_field
      else if f.field_type =? field_type_keyword
      then with_field
      else without

  unfoldable pub new_memtable : Memtable
  unfolding make_fields
  new_memtable = record {
    fields = make_fields set.schema.fields [];
    ds = new_writer;
    doc_count = 0;
    raw_bytes = 0;
  }

  unfoldable pub add_tokens : ℕ → List Token → FieldAccumulator set.rb → FieldAccumulator set.rb
  unfolding add_token
  add_tokens doc_id [] fa = fa
  add_tokens doc_id (tok ∷ toks) fa =
      add_tokens doc_id toks (add_token set.rb fa doc_id tok.term tok.position)

  unfoldable pub add_text : ℕ → Bytes → FieldAccumulator set.rb → FieldAccumulator set.rb
  unfolding add_tokens set_doclen tokenize
  add_text doc_id sb fa =
      let tokens = tokenize set.text sb in
      set_doclen set.rb (add_tokens doc_id tokens fa) doc_id (length tokens % 2 ^ 32)

  unfoldable pub add_keyword : ℕ → Bytes → FieldAccumulator set.rb → FieldAccumulator set.rb
  unfolding add_token set_doclen
  add_keyword doc_id sb fa =
      set_doclen set.rb (add_token set.rb fa doc_id (set.text.to_lower sb) 0) doc_id 1

  -- a field that the document has, by its type
  unfoldable pub add_by_type :
      ℕ → Field → Option Bytes → Option (FieldAccumulator set.rb) → Accumulators → Accumulators
  unfolding add_text add_keyword
  add_by_type doc_id f none fa m = m
  add_by_type doc_id f (some sb) none m = m
  add_by_type doc_id f (some sb) (some fa) m =
      if f.field_type =? field_type_text
      then insert f.name (add_text doc_id sb fa) m
      else if f.field_type =? field_type_keyword
      then insert f.name (add_keyword doc_id sb fa) m
      else m

  unfoldable pub add_field : ℕ → set.fast_json.Value → Field → Accumulators → Accumulators
  unfolding add_by_type
  add_field doc_id v f m = elim (set.fast_json.get v f.name) [
    | none ↦ m
    | some fv ↦ add_by_type doc_id f (set.fast_json.get_string_bytes fv) (lookup f.name m) m
  ]

  unfoldable pub add_fields : ℕ → set.fast_json.Value → List Field → Accumulators → Accumulators
  unfolding add_field
  add_fields doc_id v [] m = m
  add_fields doc_id v (f ∷ fs) m = add_fields doc_id v fs (add_field doc_id v f m)

  -- a parsed document
  unfoldable pub add_value : Memtable → set.fast_json.Value → Bytes → Memtable
  unfolding add_fields add
  add_value m v raw_json = record {
    fields = add_fields m.doc_count v set.schema.fields m.fields;
    ds = add set.codecs.zstd m.ds raw_json;
    doc_count = (m.doc_count + 1) % 2 ^ 32;
    raw_bytes = m.raw_bytes + length raw_json;
  }

  unfoldable pub memtable_add : Memtable → Bytes → Outcome AddError Memtable
  unfolding add_value
  memtable_add m raw_json = elim (set.fast_json.parse_bytes raw_json) [
    | none ↦ err invalid_json
    | some v ↦ ok (add_value m v raw_json)
  ]

  -- the accumulators in the schema's order
  unfoldable pub field_slice : List Field → Accumulators → List (FieldAccumulator set.rb)
  field_slice [] m = []
  field_slice (f ∷ fs) m = elim (lookup f.name m) [
    | none ↦ field_slice fs m
    | some fa ↦ fa ∷ field_slice fs m
  ]

  unfoldable pub memtable_build : Memtable → Outcome BuildError BuildResult
  unfolding field_slice build
  memtable_build m =
      build set.rb set.codecs (field_slice set.schema.fields m.fields) m.ds m.doc_count
