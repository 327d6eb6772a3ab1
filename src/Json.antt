-- ===== src/Json.antt =====
-- What the program uses of encoding/json without looking into a document: a parameter of the
-- modules below, with the documented behaviour of `Compact` and `Valid` as its laws.
use s3search.Base.{◌≤◌, ◌≡◌, Bool, true, Option, some, Bytes, length}

pub record Json : Type 0 where
  -- `json.Compact`, `none` for an error; `json.Valid`
  pub compact : Bytes → Option Bytes
  pub valid : Bytes → Bool
  -- compaction elides insignificant white space
  pub compact-valid : (raw p : Bytes) → compact raw ≡ some p → valid p ≡ true
  pub compact-length : (raw p : Bytes) → compact raw ≡ some p → length p ≤ length raw
  pub valid-compacts : (raw : Bytes) → valid raw ≡ true → (p : Bytes) × (compact raw ≡ some p)
