-- ===== src/Compactor/Garbage.antt =====
-- `GC` and `extractSegIDFromKey` of pkg/index/compactor.go, and `SegmentKey` of manifest.go.
use s3search.Base.{
  ℕ, Bool, ◌||◌, Bytes, List, [], ◌∷◌, ◌++◌, ◌==◌, ◌=?◌, bytes_eq, contains, if◌then◌else◌,
}
use s3search.Base.{Option, none, some, Outcome, ok, ◌>>=◌}
use s3search.Store.Blob.{BlobStore}
use s3search.Manifest.Versions.{SegmentMeta, Manifest, ManifestJson, Error, active_segments, latest}

-- "/segments/"
abbrev pub segments_infix : Bytes
segments_infix = 47 ∷ 115 ∷ 101 ∷ 103 ∷ 109 ∷ 101 ∷ 110 ∷ 116 ∷ 115 ∷ 47 ∷ []

abbrev pub slash : ℕ
slash = 47

abbrev pub dot : ℕ
dot = 46

unfoldable pub segments_prefix : Bytes → Bytes
segments_prefix index_name = index_name ++ segments_infix

unfoldable pub segment_key : Bytes → Bytes → Bytes → Bytes
unfolding segments_prefix
segment_key index_name seg_id ext = segments_prefix index_name ++ (seg_id ++ ext)

-- `key[strings.LastIndex(key, c)+1:]`, if the character is there
unfoldable pub after_last : ℕ → Bytes → Option Bytes
after_last c [] = none
after_last c (b ∷ key) = elim (after_last c key) [
  | none ↦ if b == c then some key else none
  | some name ↦ some name
]

-- `name[:strings.Index(name, c)]`, or the whole name
unfoldable pub before_first : ℕ → Bytes → Bytes
before_first c [] = []
before_first c (b ∷ name) = let rest = before_first c name in if b == c then [] else b ∷ rest

unfoldable pub seg_id_of : Option Bytes → Bytes
unfolding before_first
seg_id_of none = []
seg_id_of (some name) = before_first dot name

unfoldable pub extract_seg_id : Bytes → Bytes
unfolding after_last seg_id_of
extract_seg_id key = seg_id_of (after_last slash key)

unfoldable pub ids_of : List SegmentMeta → List Bytes
ids_of [] = []
ids_of (s ∷ ss) = s.id ∷ ids_of ss

-- `segID == "" || protected[segID]`
unfoldable pub is_spared : List Bytes → Bytes → Bool
unfolding extract_seg_id
is_spared protected key = extract_seg_id key =? [] || contains (extract_seg_id key) protected

module _ (bs : BlobStore) (json : ManifestJson) (index_name : Bytes) where
  -- A deletion is taken to succeed.
  unfoldable pub delete_garbage : List Bytes → List Bytes → bs.State → bs.State
  unfolding is_spared
  delete_garbage protected [] s = s
  delete_garbage protected (key ∷ keys) s =
      delete_garbage protected keys (if is_spared protected key then s else bs.delete s key)

  -- Nothing happens before the first manifest.
  unfoldable pub collect : bs.State → Option Manifest → bs.State
  unfolding delete_garbage ids_of segments_prefix
  collect s none = s
  collect s (some manifest) =
      delete_garbage (ids_of (active_segments manifest)) (bs.list s (segments_prefix index_name)) s

  unfoldable pub gc : bs.State → Outcome Error bs.State
  unfolding collect
  gc s = latest bs json index_name s >>= λ manifest. ok (collect s manifest)
