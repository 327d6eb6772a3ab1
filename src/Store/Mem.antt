-- ===== src/Store/Mem.antt =====
-- internal/testutil/memstore.go: the store in memory. The order in which Go runs through the map of
-- objects is that of the list here; no law depends on it. Locks guard single calls only.
use s3search.Base.{ℕ, ◌+◌, ◌-◌, Bool, true, false, ◌&&◌, Bytes}
use s3search.Base.{List, [], ◌∷◌, ◌++◌, length, take, drop, min, none, some, Outcome, ok, err}
use s3search.Base.{panic, bytes_eq, lookup, insert, remove}
use s3search.Base.{has_prefix, if◌then◌else◌, ltb}
use s3search.Store.Blob.{StoreError, not_found, precondition_failed}

pub record RangeCall : Type 0 where
  pub key : Bytes
  pub off : ℕ
  pub len : ℕ

pub record MemStore : Type 0 where
  pub objects : List (Bytes × Bytes)
  pub range_log : List RangeCall

abbrev pub new_mem_store : MemStore
new_mem_store = record { objects = []; range_log = [] }

unfoldable pub get : MemStore → Bytes → Outcome StoreError Bytes
get m key = elim (lookup key m.objects) [ none ↦ err not_found | some b ↦ ok b ]

-- The slice of `b` up to `off + len` or its end; an offset past the end panics.
unfoldable pub slice : Bytes → ℕ → ℕ → Outcome StoreError Bytes
slice b off len =
    let end = min (off + len) (length b) in
    if ltb end off then panic else ok (take (end - off) (drop off b))

unfoldable pub get_range : MemStore → Bytes → ℕ → ℕ → MemStore × Outcome StoreError Bytes
unfolding slice
get_range m key off len =
    let m' = record m {
      range_log = m.range_log ++ record { key = key; off = off; len = len } ∷ [];
    } in
    (m', elim (lookup key m'.objects) [ none ↦ err not_found | some b ↦ slice b off len ])

unfoldable pub has_object : MemStore → Bytes → Bool
has_object m key = elim (lookup key m.objects) [ none ↦ false | some b ↦ true ]

unfoldable pub put : MemStore → Bytes → Bytes → Bool → Outcome StoreError MemStore
unfolding has_object
put m key body if_none_match =
    if if_none_match && has_object m key
    then err precondition_failed
    else ok (record m { objects = insert key body m.objects })

unfoldable pub delete : MemStore → Bytes → MemStore
delete m key = record m { objects = remove key m.objects }

unfoldable pub keys_under : Bytes → List (Bytes × Bytes) → List Bytes
keys_under prefix [] = []
keys_under prefix ((k, b) ∷ m) =
    let rest = keys_under prefix m in if has_prefix prefix k then k ∷ rest else rest

unfoldable pub list : MemStore → Bytes → List Bytes
unfolding keys_under
list m prefix = keys_under prefix m.objects

unfoldable pub head : MemStore → Bytes → Outcome StoreError ℕ
head m key = elim (lookup key m.objects) [ none ↦ err not_found | some b ↦ ok (length b) ]
