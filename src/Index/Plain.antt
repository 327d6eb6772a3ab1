-- ===== src/Index/Plain.antt =====
-- An index with one text field, with plain data in place of the libraries: data for the tests.
use s3search.Base.{refl, arith, true, false, ◌&&◌, Bytes, [], ◌∷◌, leb, none, some}
use s3search.Json.{Json}
use s3search.Analyze.{Text}
use s3search.Schema.{field_type_text}
use s3search.Query.Plain.{lists}
use s3search.Segment.Plain.{plain_codecs}
use s3search.Wal.Log.{header}
use s3search.Index.Memtable.{FastJson, Settings, new_memtable}
use s3search.Index.Ops.{Index, FlushConfig}
use s3search.Index.Reopened.{Agree}

abbrev pub plain_json : Json
plain_json = record {
  compact = some;
  valid = λ raw. true;
  compact-valid = λ raw p e. refl;
  compact-length = λ raw p e. ground arith;
  valid-compacts = λ raw e. (raw, refl);
}

-- a document is its one field's text
abbrev pub plain_fast_json : FastJson
plain_fast_json = record {
  Value = Bytes;
  parse_bytes = some;
  get = λ v name. some v;
  get_string_bytes = some;
}

-- lower-case letters are letters
abbrev pub plain_text : Text
plain_text = record {
  to_lower = λ s. s;
  transform_string = some;
  is_letter = λ r. leb 97 r && leb r 122;
  is_digit = λ r. false;
}

-- the field "t"
abbrev pub settings : Settings
settings = record {
  schema = record {
    fields = record { name = 116 ∷ []; field_type = field_type_text; store = true } ∷ [];
    id_field = [];
  };
  rb = lists;
  codecs = plain_codecs;
  fast_json = plain_fast_json;
  text = plain_text;
}

-- a flush for each document
abbrev pub eager : FlushConfig
eager = record { max_docs = 1; max_bytes = 1000; max_age = 1000 }

abbrev pub lazy : FlushConfig
lazy = record { max_docs = 100; max_bytes = 1000; max_age = 1000 }

abbrev pub empty_index : Index settings
empty_index = record {
  memtable = new_memtable settings;
  wal = record { file = header; pos = 8; buf = [] };
  last_flush = 0;
  flushing = none;
  flush_err = none;
}

pub plain-Agree : Agree settings plain_json
plain-Agree = record { compact-compact = λ raw p c. refl; parses = λ raw p v c e. (p, refl) }
